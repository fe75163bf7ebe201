-- ===== src/Config/Chain.antt =====
-- What the parts of a call that gave a value did: the chains of internal/config/loader.go, where every
-- step may return an error.
use loyalty_system.Prelude.{◌≡◌, ap, ◌∙◌, subst, inl, inr, String}
use loyalty_system.Errors.{
  Result, ok, Reply, done, fault, Result-cases, Exec, relabel, result_of, wrapping, continue, ◌>>◌,
}

pub result_of-ok : {A : Type 0} (r : Reply A) (a : A) → result_of r ≡ ok a → r ≡ done a
result_of-ok (done x) a h = cc
result_of-ok (fault n) a h = cc

-- What the parts of a call did that gave a value.
module _ {W A : Type 0} where
  pub seq-ok :
      {B : Type 0} (m : Exec W A) (k : Exec W B) (w w2 : W) (b : B)
      → (m >> k) w ≡ (ok b, w2)
      → (a : A) × (w1 : W) × (m w ≡ (ok a, w1)) × (k w1 ≡ (ok b, w2))
  seq-ok m k w w2 b h = elim (Result-cases (m w).0) [
    | inl (a, e) ↦ (
      a,
      (m w).1,
      ap (λ (r : Result A). (r, (m w).1)) e,
      subst (λ (r : Result A). continue r (λ _. k) (m w).1 ≡ (ok b, w2)) e h,
    )
    | inr (x, e) ↦
        let h' = subst (λ (r : Result A). continue r (λ _. k) (m w).1 ≡ (ok b, w2)) e h in cc
  ]

  pub wrapping-ok :
      (message : String) (m : Exec W A) (w w2 : W) (a : A)
      → wrapping message m w ≡ (ok a, w2)
      → m w ≡ (ok a, w2)
  wrapping-ok message m w w2 a h = elim (Result-cases (m w).0) [
    | inl (x, e) ↦
        let h' =
          subst (λ (r : Result A). ◌≡◌ {A = Result A × W} (relabel message r, (m w).1) (ok a, w2)) e
            h in
        ap (λ (r : Result A). (r, (m w).1)) e ∙ h'
    | inr (x, e) ↦
        let h' =
          subst (λ (r : Result A). ◌≡◌ {A = Result A × W} (relabel message r, (m w).1) (ok a, w2)) e
            h in
        cc
  ]
