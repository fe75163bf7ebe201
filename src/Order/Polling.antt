-- ===== src/Order/Polling.antt =====
-- `PollOrder` of internal/order/accrual.go over the client of pkg/accrualclient/client.go: what the
-- worker is told for each answer of the accrual system.
use loyalty_system.Prelude.{
  ℕ, ◌≡◌, ◌≢◌, refl, sym, ap, ◌∙◌, ◌↔◌, inl, inr, false, Option, none, some, [], ◌++◌, Text,
  text_eq, ◌==◌, arith, Bool-cases, ==_iff,
}
use loyalty_system.Prelude.Strings.{trim_space, path_escape}
use loyalty_system.Errors.{
  Error, sentinel, not_found, server, foreign, unexpected_status, wrap, join, err, Reply, done,
  fault, errors_is, as_rate_limited,
}
use loyalty_system.AccrualClient.{OrderInfo}
use loyalty_system.AccrualClient.Client.{
  HttpClient, AccrualClient, Response, get_order_info, provider, path_prefix, on_reply, on_body,
  on_status, decoded, is_retry_exhausted,
}
use loyalty_system.AccrualClient.Client.RetryAfter.{IsWait, parse_retry_after-IsWait}
use loyalty_system.Order.Accrual.{
  Poll, updated, not_registered, rate_limited, transient_error, poll_order, poll_of,
}

-- The status code and the body, if the exchange brought a response that can be read.
abbrev readable : ℕ → Reply Text → Option (ℕ × Text)
readable status_code (done body) = some (status_code, body)
readable status_code (fault n) = none

abbrev pub answer : Reply Response → Option (ℕ × Text)
answer (done resp) = readable resp.status_code resp.body
answer (fault n) = none

abbrev pub header : Reply Response → Text
header (done resp) = resp.retry_after
header (fault n) = []

-- What the contract of pkg/accrualclient/contract.go says of the poll that an exchange leads to.
pub record MeetsContract (unmarshal : Text → Reply OrderInfo) (reply : Option (ℕ × Text))
    (retry_after : Text) (poll : Poll) : Type 0 where
  -- 200 with a body that decodes, whose info is passed on
  pub updates :
      (poll.outcome ≡ updated)
      ↔ ((body : Text) × (i : OrderInfo) × (reply ≡ some (200, body)) × (unmarshal body ≡ done i))
  pub informs :
      (body : Text) (i : OrderInfo)
      → reply ≡ some (200, body)
      → unmarshal body ≡ done i
      → poll.info ≡ i
  -- 204
  pub waits : (poll.outcome ≡ not_registered) ↔ ((body : Text) × (reply ≡ some (204, body)))
  -- 429, with the wait that its header asks for
  pub backs_off : (poll.outcome ≡ rate_limited) ↔ ((body : Text) × (reply ≡ some (429, body)))
  pub delays : (body : Text) → reply ≡ some (429, body) → IsWait retry_after poll.retry_after
  -- every other exchange, and no other, is reported as an error to try again
  pub reports : (poll.outcome ≡ transient_error) ↔ (poll.error ≢ none)

answer-parts :
    (a b : ℕ) (x y : Text)
    → ◌≡◌ {A = Option (ℕ × Text)} (some (a, x)) (some (b, y))
    → (a ≡ b) × (x ≡ y)
answer-parts a b x y e = (cc, cc)

differ :
    {B : Type 0} (a b : ℕ) (x y : Text)
    → a ≢ b
    → ◌≡◌ {A = Option (ℕ × Text)} (some (a, x)) (some (b, y))
    → B
differ a b x y other e = absurd (other (answer-parts a b x y e).0)

module _ (unmarshal : Text → Reply OrderInfo) (retry_after : Text) where
  unavailable_table :
      (e : Error)
      → errors_is e not_found ≡ false
      → as_rate_limited e ≡ none
      → MeetsContract unmarshal none retry_after (poll_of (err e))
  unavailable_table e plain unlimited =
      rw (plain, unlimited)
        (record {
          updates = (λ h. cc, λ (b, i, same, f). cc);
          informs = λ b i same f. cc;
          waits = (λ h. cc, λ (b, same). cc);
          backs_off = (λ h. cc, λ (b, same). cc);
          delays = λ b same. cc;
          reports = (λ h none_set. cc, λ h. refl);
        })

  other_table :
      (status_code : ℕ) (body : Text) (e : Error)
      → errors_is e not_found ≡ false
      → as_rate_limited e ≡ none
      → status_code ≢ 204
      → status_code ≢ 429
      → (status_code ≡ 200 → (i : OrderInfo) → unmarshal body ≢ done i)
      → MeetsContract unmarshal (some (status_code, body)) retry_after (poll_of (err e))
  other_table status_code body e plain unlimited h204 h429 h200 =
      rw (plain, unlimited)
        (record {
          updates = (
            λ h. cc,
            λ (b, i, same, f).
                let (code, text) = answer-parts status_code 200 body b same in
                absurd (h200 code i (rw text f)),
          );
          informs = λ b i same f.
              let (code, text) = answer-parts status_code 200 body b same in
              absurd (h200 code i (rw text f));
          waits =
              (λ h. cc, λ (b, same). absurd (h204 (answer-parts status_code 204 body b same).0));
          backs_off =
              (λ h. cc, λ (b, same). absurd (h429 (answer-parts status_code 429 body b same).0));
          delays = λ b same. absurd (h429 (answer-parts status_code 429 body b same).0);
          reports = (λ h none_set. cc, λ h. refl);
        })

  decoded_table :
      (body : Text) (r : Reply OrderInfo)
      → unmarshal body ≡ r
      → MeetsContract unmarshal (some (200, body)) retry_after (poll_of (decoded r))
  decoded_table body (done i) e = record {
    updates = (λ h. (body, i, refl, e), λ h. refl);
    informs = λ b j same f.
        let text = (answer-parts 200 200 body b same).1 in
        let again : ◌≡◌ {A = Reply OrderInfo} (done i) (done j) = sym e ∙ ap unmarshal text ∙ f in
        cc;
    waits = (λ h. cc, λ (b, same). differ 200 204 body b (omega arith) same);
    backs_off = (λ h. cc, λ (b, same). differ 200 429 body b (omega arith) same);
    delays = λ b same. differ 200 429 body b (omega arith) same;
    reports = (λ h. cc, λ h. absurd (h refl));
  }
  decoded_table body (fault n) e =
      other_table 200 body (wrap "decode accrual response" (foreign n)) refl refl (omega arith)
        (omega arith) (λ _ i f. cc)

  status_table :
      (status_code : ℕ) (body : Text)
      → MeetsContract unmarshal
          (some (status_code, body))
          retry_after
          (poll_of (on_status unmarshal status_code retry_after body))
  status_table status_code body = elim (Bool-cases (status_code == 200)) [
    | inl e ↦ rw (e, (==_iff status_code 200).0 e) (decoded_table body (unmarshal body) refl)
    | inr n200 ↦ elim (Bool-cases (status_code == 204)) [
      | inl e ↦
          rw (n200, e, (==_iff status_code 204).0 e)
            (record {
              updates = (λ h. cc, λ (b, i, same, f). differ 204 200 body b (omega arith) same);
              informs = λ b i same f. differ 204 200 body b (omega arith) same;
              waits = (λ h. (body, refl), λ h. refl);
              backs_off = (λ h. cc, λ (b, same). differ 204 429 body b (omega arith) same);
              delays = λ b same. differ 204 429 body b (omega arith) same;
              reports = (λ h. cc, λ h. absurd (h refl));
            })
      | inr n204 ↦ elim (Bool-cases (status_code == 429)) [
        | inl e ↦
            rw (n200, n204, e, (==_iff status_code 429).0 e)
              (record {
                updates = (λ h. cc, λ (b, i, same, f). differ 429 200 body b (omega arith) same);
                informs = λ b i same f. differ 429 200 body b (omega arith) same;
                waits = (λ h. cc, λ (b, same). differ 429 204 body b (omega arith) same);
                backs_off = (λ h. (body, refl), λ h. refl);
                delays = λ b same. parse_retry_after-IsWait retry_after;
                reports = (λ h. cc, λ h. absurd (h refl));
              })
        | inr n429 ↦ elim (Bool-cases (status_code == 500)) [
          | inl e ↦
              rw (n200, n204, n429, e)
                (other_table status_code body (sentinel server) refl refl (ground arith)
                  (ground arith) (λ h. ground arith))
          | inr n500 ↦
              rw (n200, n204, n429, n500)
                (other_table status_code body (unexpected_status status_code body) refl refl
                  (ground arith) (ground arith) (λ h. ground arith))
        ]
      ]
    ]
  ]

  on_body_table :
      (status_code : ℕ) (body : Reply Text)
      → MeetsContract unmarshal
          (readable status_code body)
          retry_after
          (poll_of (on_body unmarshal status_code retry_after body))
  on_body_table status_code (done body) = status_table status_code body
  on_body_table status_code (fault n) =
      unavailable_table (wrap "read accrual response" (foreign n)) refl refl

module _ {W : Type 0} (http : HttpClient W) (c : AccrualClient) where
  on_reply_table :
      (reply : Reply Response)
      → MeetsContract http.unmarshal (answer reply) (header reply) (poll_of (on_reply http c reply))
  on_reply_table (done resp) =
      on_body_table http.unmarshal resp.retry_after resp.status_code resp.body
  on_reply_table (fault n) = elim (Bool-cases (is_retry_exhausted (http.error_text n))) [
    | inl spent ↦
        rw spent
          (unavailable_table http.unmarshal [] (join (sentinel server) (foreign n)) refl refl)
    | inr other ↦
        rw other
          (unavailable_table http.unmarshal [] (wrap "do accrual request" (foreign n)) refl refl)
  ]

  -- A poll for a number that is not blank and whose URL is accepted makes one request, to
  -- `/api/orders/` and the escaped number, and follows the contract: it reports an update exactly for
  -- a 200 whose body decodes, with the decoded info, "not registered" exactly for a 204, a rate limit
  -- exactly for a 429, with the wait of its `Retry-After` (no wait for a blank one, and for digits that
  -- many seconds, as long as they fit an int64), and a transient error, the only outcome
  -- with an error, for everything else.
  pub poll_order-MeetsContract :
      (number request : Text) (w : W)
      → text_eq (trim_space number) [] ≡ false
      → http.new_request (c.base_url ++ (path_prefix ++ path_escape (trim_space number)))
        ≡ done request
      → let (reply, w') = http.do_request c.http_client request w in
        MeetsContract http.unmarshal
          (answer reply)
          (header reply)
          (poll_order (provider http c) number w).0
        × ((poll_order (provider http c) number w).1 ≡ w')
  unfolding poll_order get_order_info
  poll_order-MeetsContract number request w given accepted =
      rw (given, accepted) (on_reply_table (http.do_request c.http_client request w).0, refl)
