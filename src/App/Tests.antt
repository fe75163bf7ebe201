-- ===== src/App/Tests.antt =====
-- A router, a run of the application that is interrupted, and the theorems of the routes and of the shutdown
-- on them.
use loyalty_system.Prelude.{
  ℕ, suc, ◌≡◌, refl, ap, ◌⊎◌, inl, false, true, Bool, none, List, [], ◌∷◌, ◌++◌, any, Text, text_eq,
  if◌then◌else◌, arith,
}
use loyalty_system.Prelude.Int.{pos}
use loyalty_system.Prelude.Strings.{bytes}
use loyalty_system.Errors.{ok, done}
use loyalty_system.Http.{Request, Response, Handler, write_header}
use loyalty_system.Auth.{Jwt, parse}
use loyalty_system.Auth.Toy.{toy}
use loyalty_system.User.Context.{with_user_id}
use loyalty_system.User.Middleware.{Carries}
use loyalty_system.App.Mux.{Route, ChiLib, UserHandler, OrderHandler, BalanceHandler, new_mux}
use loyalty_system.App.Routing.{ChiLaws, matches, is_public}
use loyalty_system.App.Access.{
  IsAuthenticated, create_order, handler_of, method_of, path_of, new_mux_refuses, new_mux_serves,
}
use loyalty_system.App.Lifecycle.{
  returned, awaiting_cancel, awaiting_stop, serving, pool_done, start_done, closed, in_run, stopped,
  System, launched, signal, wake_run, return_run, spawned, return_pool, launch_listener, listen,
  begin_shutdown, return_start, leave_run, begin_close, close_db, Reach, here, next,
}
use loyalty_system.App.Shutdown.{IsQuiet, close_db_last}
use loyalty_system.App.Progress.{Nearer, signal_progress}
use loyalty_system.App.Abandoned.{workers_outlive_db}

-- The last route that matches, or 404.
abbrev serve_last : List (Route ℕ Unit) → (method path : Text) → Handler ℕ Unit
serve_last [] method path r w = (write_header 404, w)
serve_last (route ∷ rest) method path r w =
    let later = serve_last rest method path r w in
    if any (matches method path) rest
    then later
    else if matches method path route
    then route.handler r w
    else (write_header 404, w)

abbrev chi : ChiLib ℕ Unit
chi = record { dispatch = serve_last }

any-append :
    (p : Route ℕ Unit → Bool) (before after : List (Route ℕ Unit)) (route : Route ℕ Unit)
    → p route ≡ true
    → any p (before ++ route ∷ after) ≡ true
any-append p [] after route h = rw h refl
any-append p (x ∷ before) after route h = ground (arith, any-append p before after route h)

serve_last_at :
    (before after : List (Route ℕ Unit)) (route : Route ℕ Unit) (method path : Text) (r : Request)
    (w : ℕ)
    → matches method path route ≡ true
    → any (matches method path) after ≡ false
    → serve_last (before ++ route ∷ after) method path r w ≡ route.handler r w
serve_last_at [] after route method path r w h none_after = rw (none_after, h) refl
serve_last_at (x ∷ before) after route method path r w h none_after =
    rw (any-append (matches method path) before after route h)
      (serve_last_at before after route method path r w h none_after)

serve_last_missing :
    (routes : List (Route ℕ Unit)) (method path : Text) (r : Request) (w : ℕ)
    → any (matches method path) routes ≡ false
    → serve_last routes method path r w ≡ (write_header 404, w)
serve_last_missing [] method path r w h = refl
serve_last_missing (x ∷ rest) method path r w h =
    let there : any (matches method path) rest ≡ false = ground arith in
    let no_match : matches method path x ≡ false = ground arith in rw (there, no_match) refl

abbrev chi_laws : ChiLaws chi
chi_laws = record {
  found = λ routes before after route method path plain e h none_after.
      rw e (λ i r w. serve_last_at before after route method path r w h none_after i);
  missing = λ routes method path r w plain h. (
    inl (
        ap (λ (out : Response Unit × ℕ). out.0.status)
          (serve_last_missing routes method path r w h)),
    ap (λ (out : Response Unit × ℕ). out.1) (serve_last_missing routes method path r w h),
  );
}

abbrev counted : Handler ℕ Unit
counted r w = (write_header 200, suc w)

abbrev users : UserHandler ℕ Unit
users = record { create_user = counted; auth_user = counted }

abbrev orders : OrderHandler ℕ Unit
orders = record { create_order = counted; get_orders = counted }

abbrev balances : BalanceHandler ℕ Unit
balances = record { withdraw_balance = counted; get_balance = counted; get_withdrawals = counted }

abbrev jwt : Jwt
jwt = record { secret = b's' ∷ []; ttl = pos 3_600_000_000_000 }

abbrev bare : Request
bare = record { context = none; authorization = []; body = done [] }

abbrev ticket : Text
ticket = 0 ∷ 3_600_000_000_005 ∷ 42 ∷ []

abbrev with_ticket : Request
with_ticket = record bare { authorization = bytes "bearer " ++ ticket }

no_header : (scheme token : Text) → ¬ ([] ≡ scheme ++ b' ' ∷ token)
no_header [] token e = cc
no_header (c ∷ scheme) token e = cc

anonymous : ¬ (IsAuthenticated toy jwt (λ (w : ℕ). pos 7) bare 0)
anonymous (token, user_id, c, good) = no_header c.0 token c.1

withdraw_is_secret : is_public (bytes "POST") (bytes "/api/user/balance/withdraw") ≡ false
unfolding text_eq
withdraw_is_secret = refl

new_mux_refuses_example :
    let out =
      chi.dispatch
        (new_mux toy (λ w. pos 7) jwt users orders balances)
        (bytes "POST")
        (bytes "/api/user/balance/withdraw")
        bare
        0 in
    (((out.0.status ≡ 404) ⊎ (out.0.status ≡ 405)) ⊎ (out.0.status ≡ 401)) × (out.1 ≡ 0)
new_mux_refuses_example =
    new_mux_refuses toy jwt (λ w. pos 7) chi chi_laws users orders balances (bytes "POST")
      (bytes "/api/user/balance/withdraw") bare 0 withdraw_is_secret anonymous

ticket_carried : Carries with_ticket.authorization ticket
unfolding text_eq
ticket_carried = (bytes "bearer", refl, refl, refl)

ticket_parses : parse toy jwt (pos 7) ticket ≡ ok 42
unfolding parse
ticket_parses = refl

new_mux_serves_example :
    chi.dispatch
      (new_mux toy (λ w. pos 7) jwt users orders balances)
      (method_of create_order)
      (path_of create_order)
      with_ticket
      0
    ≡ handler_of orders balances create_order (with_user_id 42 with_ticket) 0
new_mux_serves_example =
    new_mux_serves toy jwt (λ w. pos 7) chi chi_laws users orders balances create_order with_ticket
      0 ticket 42 ticket_carried ticket_parses

-- A signal while the server listens and there is no worker, and the steps up to the end of `main`.
abbrev signalled : System
signalled = record (launched 0) {
  cancelled = true;
  pool = awaiting_cancel;
  start = awaiting_stop;
  listener = serving;
}

interrupted : Reach (launched 0) signalled
interrupted =
    next (next (next (next here (launch_listener refl)) (listen refl refl)) (spawned refl)) signal

abbrev over : System
over = record (launched 0) {
  cancelled = true;
  run = returned;
  group = 0;
  pool = pool_done;
  start = start_done;
  listener = closed;
  is_shut = true;
}

finished : Reach (launched 0) over
finished =
    let shut = next (next interrupted (begin_shutdown refl refl)) (return_start refl) in
    next (next (next shut (return_pool refl refl)) (wake_run refl refl)) (return_run refl refl)

close_db_last_example :
    ((record over { main_phase = stopped; db_open = false }).run ≡ returned)
    × IsQuiet (record over { main_phase = stopped; db_open = false })
close_db_last_example =
    close_db_last
      (next (next (next finished (leave_run refl refl)) (begin_close refl)) (close_db refl refl))
      refl

signal_progress_example : (in_run ≡ stopped) ⊎ Nearer signalled
signal_progress_example = signal_progress interrupted refl

workers_outlive_db_example :
    (s : System) × Reach (launched 3) s × (s.db_open ≡ false) × (s.busy ≡ 2)
workers_outlive_db_example = workers_outlive_db 3 2 (omega arith)
