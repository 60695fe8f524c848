-- ===== src/App/Replies.antt =====
-- Inversion of handlers: where the response is a success, no guard before it responded.
use mailslot.Base.{
  ℕ, String, Bool, true, false, Option, none, some, ◌≡◌, refl, ap, sym, ◌∙◌, Result, ok, err,
  Failure, service, thrown,
}
use mailslot.App.Context.{
  Database, Handler, Reply, Response, failed, payment_required, done, next, failure_response, ◌>>=◌,
  ◌>>◌, respond_if, or_respond, lift, respond, run_handler,
}

abbrev pub is_success : Response → Bool
is_success (failed status error) = false
is_success (payment_required price address) = false
is_success _ = true

pub failure_response-fails : (e : Failure) → is_success (failure_response e) ≡ false
failure_response-fails (service status reason) = refl
failure_response-fails (thrown message) = refl

-- The end of a handler: its response and the database.
module _ {r : Response} {db' : Database} (success : is_success r ≡ true) where
  pub not_failed :
      (x : Response) (db : Database)
      → is_success x ≡ false
      → run_handler (respond x) db ≡ (r, db')
      → ⊥
  not_failed x db fails h =
      let same = ap (λ (y : Response × Database). is_success y.0) h in
      cc (sym fails ∙ same ∙ success)

  pub respond_if-success :
      (bad : Bool) (status : ℕ) (error : String) (k : Handler Response) (db : Database)
      → run_handler (respond_if bad status error >> k) db ≡ (r, db')
      → (bad ≡ false) × (run_handler k db ≡ (r, db'))
  respond_if-success true status error k db h = absurd (not_failed (failed status error) db refl h)
  respond_if-success false status error k db h = (refl, h)

  pub or_respond-success :
      {A : Type 0} (o : Option A) (status : ℕ) (error : String) (k : A → Handler Response)
      (db : Database)
      → run_handler (or_respond o status error >>= k) db ≡ (r, db')
      → (a : A) × (o ≡ some a) × (run_handler (k a) db ≡ (r, db'))
  or_respond-success none status error k db h = absurd (not_failed (failed status error) db refl h)
  or_respond-success (some a) status error k db h = (a, refl, h)

  pub lift-success :
      {A : Type 0} (o : Result A) (k : A → Handler Response) (db : Database)
      → run_handler (lift o >>= k) db ≡ (r, db')
      → (a : A) × (o ≡ ok a) × (run_handler (k a) db ≡ (r, db'))
  lift-success (err e) k db h =
      absurd (not_failed (failure_response e) db (failure_response-fails e) h)
  lift-success (ok a) k db h = (a, refl, h)

-- A handler after one whose reply is known.
module _ {A : Type 0} (m : Handler A) (k : A → Handler Response) (db db1 : Database) where
  after_reply : Reply A × Database → Response × Database
  after_reply y =
      run_handler
        (λ (_ : Database). elim y.0 as (λ _. Reply Response × Database) [
          | done x ↦ (done x, y.1)
          | next a ↦ k a y.1
        ])
        db

  pub run-next : (a : A) → m db ≡ (next a, db1) → run_handler (m >>= k) db ≡ run_handler (k a) db1
  unfolding after_reply
  run-next a h = ap after_reply h

  pub run-done : (x : Response) → m db ≡ (done x, db1) → run_handler (m >>= k) db ≡ (x, db1)
  unfolding after_reply
  run-done x h = ap after_reply h
