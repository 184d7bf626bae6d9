-- ===== src/Session.antt =====
-- The exceptions of the services, and a service call as an action on the database session.
-- Written state stays written when an exception is raised, so the state comes back beside it.
-- PostgreSQL, which accepts or rejects a commit, is the parameter `Engine`.
pub mod Ends
pub mod Blocks
use realynk.Base.{ℕ, ◌≡◌, Bool, true, false, Option, none, some, if◌then◌else◌}
use realynk.Models.{Db}

-- The `code` strings of the error classes.
pub data Code : Type 0 where
  validation_error : Code
  channel_not_found channel_access_denied already_member owner_cannot_leave : Code
  membership_forbidden membership_not_found user_not_found channel_update_forbidden : Code
  channel_delete_forbidden : Code
  target_not_found moderation_permission_denied already_suspended not_suspended : Code
  already_banned not_banned channel_already_locked channel_not_locked target_protected : Code
  conversation_not_found self_conversation_not_allowed user_inactive : Code
  conversation_create_failed : Code
  invalid_message_context message_access_denied account_restricted : Code
  message_content_required message_content_too_long message_send_failed message_not_found : Code
  message_already_deleted message_edit_not_allowed message_delete_not_allowed : Code
  invalid_message_cursor : Code
  reaction_access_denied message_deleted reaction_already_exists reaction_not_found : Code
  read_access_denied read_mark_failed : Code
  notification_not_found notification_create_failed : Code
  attachment_access_denied attachment_too_large invalid_attachment : Code
  attachment_limit_exceeded attachment_upload_failed attachment_not_found : Code
  attachment_access_failed attachment_delete_forbidden attachment_delete_failed : Code
  authentication_required invalid_token account_inactive user_exists invalid_credentials : Code
  not_found message_context_required invalid_reaction invalid_message_ids : Code
  invalid_presence_target presence_user_not_found presence_access_denied : Code
  invalid_typing_context typing_access_denied : Code

-- The exception classes. The service errors carry a code and an HTTP status.
pub data Exn : Type 0 where
  channel_error moderation_error conversation_error message_error : Code → ℕ → Exn
  reaction_error read_error notification_error attachment_error : Code → ℕ → Exn
  typing_error : Code → Exn
  -- an error response that a route returns by itself
  request_error : Code → ℕ → Exn
  user_not_found_error integrity_error attribute_error : Exn
  duplicate_user_error invalid_credentials_error token_error storage_error : Exn

-- `hasattr(error, "code")`
abbrev pub has_code : Exn → Bool
has_code user_not_found_error = false
has_code attribute_error = false
has_code duplicate_user_error = false
has_code invalid_credentials_error = false
has_code token_error = false
has_code storage_error = false
has_code _ = true

pub data Result (A : Type 0) : Type 0 where
  ok : A → Result A
  err : Exn → Result A

abbrev pub Action : Type 0 → Type 0
Action A = Db → Result A × Db

module _ {A : Type 0} where
  pub pure : A → Action A
  pure a d = (ok a, d)

  pub raise : Exn → Action A
  raise e d = (err e, d)

  pub gets : (Db → A) → Action A
  gets f d = (ok (f d), d)

  abbrev or_raise : Option A → Exn → Action A
  or_raise none e d = (err e, d)
  or_raise (some a) e d = (ok a, d)

  -- a query for one row, and an exception where there is none
  pub fetch : (Db → Option A) → Exn → Action A
  fetch query e d = or_raise (query d) e d

  -- a test of a rule that may itself raise
  pub lift : Result A → Action A
  lift r d = (r, d)

  -- `try: m` with `except Exception as error: raise handler(error)`
  pub catch : Action A → (Exn → Exn) → Action A
  catch m handler d =
      let (r, d') = m d in elim r [ ok a ↦ (ok a, d') | err e ↦ (err (handler e), d') ]

  -- `try: m` with `except Exception: logger.exception(…)`, which goes on with `a`
  pub attempt : A → Action A → Action A
  attempt a m d = let (r, d') = m d in elim r [ ok x ↦ (ok x, d') | err e ↦ (ok a, d') ]

pub raise_if : Bool → Exn → Action (Unit {0})
raise_if c e d = (if c then err e else ok tt, d)

pub modify : (Db → Db) → Action (Unit {0})
modify f d = (ok tt, f d)

-- What the database says to a commit of the pending state. A rejection is an `IntegrityError`; it
-- shows the state that queries see after the rollback, which other sessions may have changed.
pub data Verdict : Type 0 where
  accepted : Verdict
  rejected : Db → Verdict

abbrev pub Engine : Type 0
Engine = Db → Verdict

abbrev settle : Exn → Db → Verdict → Result (Unit {0}) × Db
settle e d accepted = (ok tt, d)
settle e d (rejected d') = (err e, d')

-- `db.session.commit()` under `except IntegrityError`: roll back and raise the service's error.
pub commit_or : Engine → Exn → Action (Unit {0})
commit_or engine e d = settle e d (engine d)

abbrev settled : Db → Verdict → Result Bool × Db
settled d accepted = (ok true, d)
settled d (rejected d') = (ok false, d')

-- `try: commit()` with `except IntegrityError: rollback()`, and what follows in each case
pub try_commit : Engine → Action Bool
try_commit engine d = settled d (engine d)

-- `db.session.commit()`; a rejected commit raises, and the session is rolled back.
abbrev pub commit : Engine → Action (Unit {0})
commit engine = commit_or engine integrity_error

module _ {A B : Type 0} where
  abbrev pub continue : Result A → (A → Action B) → Action B
  continue (ok a) f d = f a d
  continue (err e) f d = (err e, d)

  infixl 5 ◌>>=◌ ◌>>◌
  -- opening this opens the actions above too
  unfoldable pub ◌>>=◌ : Action A → (A → Action B) → Action B
  unfolding pure raise gets fetch lift catch attempt raise_if modify commit_or try_commit
  ◌>>=◌ m f d = let (r, d') = m d in continue r f d'

  abbrev pub ◌>>◌ : Action A → Action B → Action B
  m >> k = m >>= λ _. k

abbrev pub is_ok : {A : Type 0} → Result A → Bool
is_ok (ok a) = true
is_ok (err e) = false

-- No other session commits while this one runs: a rollback leads back to the state `d`.
abbrev pub RestoresOn : Engine → Db → Type 0
RestoresOn engine d = (p d' : Db) → engine p ≡ rejected d' → d' ≡ d
