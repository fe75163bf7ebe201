-- ===== src/Worker/RateLimit.antt =====
-- `setRateLimit` of internal/order/worker.go: the deadline under one call, and under the interleaved
-- loads and compare-and-swaps of any number of goroutines.
use loyalty_system.Prelude.{
  ◌≡◌, refl, ◌∙◌, subst, ◌⊎◌, inl, inr, true, false, List, [], ◌∷◌, ◌++◌, arith, ◌≢◌,
}
use loyalty_system.Prelude.Int.{ℤ, ◌≤ℤ◌, leb_ℤ}

-- A goroutine in `setRateLimit` with its new deadline: before the load, after it, and returned.
pub data Setter : Type 0 where
  loading : ℤ → Setter
  loaded : (deadline current : ℤ) → Setter
  returned : ℤ → Setter

-- The shared cell and the goroutines.
pub record Setters : Type 0 where
  pub cell : ℤ
  pub all : List Setter

pub data Step (s : Setters) : Setters → Type 0 where
  -- `Load`
  load :
      (before after : List Setter) (deadline : ℤ)
      → s.all ≡ before ++ loading deadline ∷ after
      → Step s (record s { all = before ++ loaded deadline s.cell ∷ after })
  -- `newUntil <= current`
  give_up :
      (before after : List Setter) (deadline current : ℤ)
      → s.all ≡ before ++ loaded deadline current ∷ after
      → leb_ℤ deadline current ≡ true
      → Step s (record s { all = before ++ returned deadline ∷ after })
  -- `CompareAndSwap` finds the value that was loaded, or another
  swap :
      (before after : List Setter) (deadline current : ℤ)
      → s.all ≡ before ++ loaded deadline current ∷ after
      → leb_ℤ deadline current ≡ false
      → s.cell ≡ current
      → Step s (record { cell = deadline; all = before ++ returned deadline ∷ after })
  retry :
      (before after : List Setter) (deadline current : ℤ)
      → s.all ≡ before ++ loaded deadline current ∷ after
      → leb_ℤ deadline current ≡ false
      → s.cell ≢ current
      → Step s (record s { all = before ++ loading deadline ∷ after })

pub data Reach (s : Setters) : Setters → Type 0 where
  here : Reach s s
  next : {t u : Setters} → Reach s t → Step t u → Reach s u

abbrev pub deadline_of : Setter → ℤ
deadline_of (loading d) = d
deadline_of (loaded d c) = d
deadline_of (returned d) = d

-- What the cell owes to one goroutine: nothing loaded lies beyond it, and a deadline that has been
-- set is met.
abbrev pub Owes : ℤ → Setter → Type 0
Owes cell (loading d) = Unit
Owes cell (loaded d c) = c ≤ℤ cell
Owes cell (returned d) = d ≤ℤ cell

abbrev pub AllOwed : ℤ → List Setter → Type 0
AllOwed cell [] = Unit
AllOwed cell (x ∷ xs) = Owes cell x × AllOwed cell xs

Owes-mono : (a b : ℤ) (x : Setter) → a ≤ℤ b → Owes a x → Owes b x
Owes-mono a b (loading d) h o = tt
Owes-mono a b (loaded d c) h o = omega arith
Owes-mono a b (returned d) h o = omega arith

AllOwed-mono : (a b : ℤ) (xs : List Setter) → a ≤ℤ b → AllOwed a xs → AllOwed b xs
AllOwed-mono a b [] h o = tt
AllOwed-mono a b (x ∷ xs) h o = (Owes-mono a b x h o.0, AllOwed-mono a b xs h o.1)

module _ (cell : ℤ) where
  AllOwed-replace :
      (before after : List Setter) (x y : Setter)
      → Owes cell y
      → AllOwed cell (before ++ x ∷ after)
      → AllOwed cell (before ++ y ∷ after)
  AllOwed-replace [] after x y h o = (h, o.1)
  AllOwed-replace (b ∷ before) after x y h o = (o.0, AllOwed-replace before after x y h o.1)

  AllOwed-at :
      (before after : List Setter) (x : Setter) → AllOwed cell (before ++ x ∷ after) → Owes cell x
  AllOwed-at [] after x o = o.0
  AllOwed-at (b ∷ before) after x o = AllOwed-at before after x o.1

-- A step does not lower the cell, and keeps what it owes.
Step-owed :
    {s t : Setters} → Step s t → AllOwed s.cell s.all → (s.cell ≤ℤ t.cell) × AllOwed t.cell t.all
Step-owed {s} (load before after d e) o = (
  omega arith,
  AllOwed-replace s.cell before after (loading d) (loaded d s.cell) (omega arith)
      (subst (AllOwed s.cell) e o),
)
Step-owed {s} (give_up before after d c e past) o =
    let owed = subst (AllOwed s.cell) e o in
    let seen = AllOwed-at s.cell before after (loaded d c) owed in
    (omega arith, AllOwed-replace s.cell before after (loaded d c) (returned d) (ground arith) owed)
Step-owed {s} (swap before after d c e later same) o =
    let grows : s.cell ≤ℤ d = rw same (ground arith) in
    (
      grows,
      AllOwed-replace d before after (loaded d c) (returned d) (omega arith)
          (AllOwed-mono s.cell d _ grows (subst (AllOwed s.cell) e o)),
    )
Step-owed {s} (retry before after d c e later other) o = (
  omega arith,
  AllOwed-replace s.cell before after (loaded d c) (loading d) tt (subst (AllOwed s.cell) e o),
)

-- A value is the deadline of one of the goroutines.
abbrev pub Among : ℤ → List Setter → Type 0
Among v [] = ⊥
Among v (x ∷ xs) = (v ≡ deadline_of x) ⊎ Among v xs

Among-replace :
    (v : ℤ) (before after : List Setter) (x y : Setter)
    → deadline_of x ≡ deadline_of y
    → Among v (before ++ x ∷ after)
    → Among v (before ++ y ∷ after)
Among-replace v [] after x y e (inl h) = inl (h ∙ e)
Among-replace v [] after x y e (inr h) = inr h
Among-replace v (b ∷ before) after x y e (inl h) = inl h
Among-replace v (b ∷ before) after x y e (inr h) = inr (Among-replace v before after x y e h)

Among-at : (before after : List Setter) (x : Setter) → Among (deadline_of x) (before ++ x ∷ after)
Among-at [] after x = inl refl
Among-at (b ∷ before) after x = inr (Among-at before after x)

-- The cell holds what it held at first, or the deadline of a goroutine.
abbrev pub HasSource : ℤ → Setters → Type 0
HasSource initial s = (s.cell ≡ initial) ⊎ Among s.cell s.all

HasSource-replace :
    {initial : ℤ} {s : Setters} (before after : List Setter) (x y : Setter)
    → s.all ≡ before ++ x ∷ after
    → deadline_of x ≡ deadline_of y
    → HasSource initial s
    → HasSource initial (record s { all = before ++ y ∷ after })
HasSource-replace before after x y e d (inl h) = inl h
HasSource-replace {s} before after x y e d (inr h) =
    inr (Among-replace s.cell before after x y d (subst (Among s.cell) e h))

Step-HasSource :
    {initial : ℤ} {s t : Setters} → Step s t → HasSource initial s → HasSource initial t
Step-HasSource (load before after d e) h = HasSource-replace before after (loading d) _ e refl h
Step-HasSource (give_up before after d c e past) h =
    HasSource-replace before after (loaded d c) _ e refl h
Step-HasSource (swap before after d c e later same) h = inr (Among-at before after (returned d))
Step-HasSource (retry before after d c e later other) h =
    HasSource-replace before after (loaded d c) _ e refl h

-- All the calls have returned.
abbrev pub AllReturned : List Setter → Type 0
AllReturned [] = Unit
AllReturned (returned d ∷ xs) = AllReturned xs
AllReturned (loading d ∷ xs) = ⊥
AllReturned (loaded d c ∷ xs) = ⊥

abbrev pub AllLoading : List Setter → Type 0
AllLoading [] = Unit
AllLoading (loading d ∷ xs) = AllLoading xs
AllLoading (loaded d c ∷ xs) = ⊥
AllLoading (returned d ∷ xs) = ⊥

-- No deadline of a goroutine lies beyond the cell.
abbrev pub AllMet : ℤ → List Setter → Type 0
AllMet cell [] = Unit
AllMet cell (x ∷ xs) = (deadline_of x ≤ℤ cell) × AllMet cell xs

AllOwed-start : (cell : ℤ) (xs : List Setter) → AllLoading xs → AllOwed cell xs
AllOwed-start cell [] h = tt
AllOwed-start cell (loading d ∷ xs) h = (tt, AllOwed-start cell xs h)
AllOwed-start cell (loaded d c ∷ xs) h = absurd h
AllOwed-start cell (returned d ∷ xs) h = absurd h

AllMet-end : (cell : ℤ) (xs : List Setter) → AllReturned xs → AllOwed cell xs → AllMet cell xs
AllMet-end cell [] h o = tt
AllMet-end cell (returned d ∷ xs) h o = (o.0, AllMet-end cell xs h o.1)
AllMet-end cell (loading d ∷ xs) h o = absurd h
AllMet-end cell (loaded d c ∷ xs) h o = absurd h

Reach-facts :
    {s t : Setters}
    → AllLoading s.all
    → Reach s t
    → (s.cell ≤ℤ t.cell) × AllOwed t.cell t.all × HasSource s.cell t
Reach-facts {s} start here = (omega arith, AllOwed-start s.cell s.all start, inl refl)
Reach-facts start (next r st) =
    let (grown, owed, source) = Reach-facts start r in
    let (more, owed') = Step-owed st owed in (omega arith, owed', Step-HasSource st source)

-- Any number of goroutines call `setRateLimit` at once. In whatever order their loads and
-- compare-and-swaps fall, once all have returned the shared deadline is the latest of theirs and of
-- the one that was there before: none lies beyond it, and it is one of them.
pub latest_deadline_wins :
    {s t : Setters}
    → AllLoading s.all
    → Reach s t
    → AllReturned t.all
    → (s.cell ≤ℤ t.cell) × AllMet t.cell t.all × ((t.cell ≡ s.cell) ⊎ Among t.cell t.all)
latest_deadline_wins {s} {t} start r over =
    let (grown, owed, source) = Reach-facts start r in
    (grown, AllMet-end t.cell t.all over owed, source)

-- At no moment do the goroutines lower the deadline.
pub deadline_never_falls : {s t : Setters} → AllLoading s.all → Reach s t → s.cell ≤ℤ t.cell
deadline_never_falls start r = (Reach-facts start r).0
