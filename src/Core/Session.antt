-- ===== src/Core/Session.antt =====
-- src/solort/core/session.py: the sessions and their messages. A Python reference to a session is
-- its id, under which the manager holds it; the id of a new session is an argument, since
-- `uuid4` draws it.
use solo_rt.Prelude.{
  ap, ◌∙◌, ℕ, ◌+◌, ◌≡◌, refl, false, Option, none, some, List, [], ◌∷◌, ◌++◌, String, str_eq,
  str_eq_iff, inl, inr, Option-cases, if◌then◌else◌, length, Result, ok, err, key_error, arith,
}
use solo_rt.Prelude.Dict
use solo_rt.Prelude.Dict.{Dict, lookup-insert}
use solo_rt.Cache.BlockHash.{Text}

pub record Message : Type 0 where
  pub role : Text
  pub content : Text

pub record Session : Type 0 where
  pub session_id : String
  pub model_id : String
  pub messages : List Message
  pub active_sequence_id : Option String

pub record SessionManager : Type 0 where
  pub sessions : Dict Session

abbrev pub new_session_manager : SessionManager
new_session_manager = record { sessions = [] }

-- `session_id or fresh`: an empty id counts as none.
unfoldable pub resolve : String → Option String → String
resolve fresh none = fresh
resolve fresh (some session_id) = if str_eq session_id "" then fresh else session_id

unfoldable pub get_or_create :
    String → String → Option String → SessionManager → Session × SessionManager
unfolding resolve
get_or_create fresh model_id session_id m =
    let id = resolve fresh session_id in
    elim (Dict.lookup id m.sessions) [
      | some session ↦ (session, m)
      | none ↦
          let session : Session = record {
            session_id = id;
            model_id = model_id;
            messages = [];
            active_sequence_id = none;
          } in
          (session, record { sessions = Dict.insert id session m.sessions })
    ]

unfoldable pub append_messages : String → List Message → SessionManager → Result SessionManager
append_messages session_id messages m = elim (Dict.lookup session_id m.sessions) [
  | none ↦ err key_error
  | some session ↦
      let longer : Session = record session { messages = session.messages ++ messages } in
      ok (record { sessions = Dict.insert session_id longer m.sessions })
]

unfoldable pub get : String → SessionManager → Option Session
get session_id m = Dict.lookup session_id m.sessions

-- `session.active_sequence_id = ...` through a reference that the caller holds.
unfoldable pub set_active : String → Option String → SessionManager → SessionManager
set_active session_id active m = elim (Dict.lookup session_id m.sessions) [
  | none ↦ m
  | some session ↦ record {
    sessions = Dict.insert session_id (record session { active_sequence_id = active }) m.sessions;
  }
]

pub record SessionSnapshot : Type 0 where
  pub sessions : ℕ
  pub active_sessions : ℕ

-- `sum(1 for ... if session.active_sequence_id)`: an empty id is not active either.
count_active : List Session → ℕ
count_active [] = 0
count_active (session ∷ rest) =
    (elim session.active_sequence_id [ none ↦ 0 | some id ↦ if str_eq id "" then 0 else 1 ])
    + count_active rest

unfoldable pub snapshot : SessionManager → SessionSnapshot
unfolding count_active
snapshot m = record {
  sessions = length m.sessions;
  active_sessions = count_active (Dict.values m.sessions);
}

-- The messages of a session, in the order they came; none of a session that is not there.
unfoldable pub transcript : String → SessionManager → List Message
transcript session_id m = elim (Dict.lookup session_id m.sessions) [
  | none ↦ []
  | some session ↦ session.messages
]

pub found-append :
    (id other : String) (session : Session) (messages : List Message) (m : SessionManager)
    → Dict.lookup id m.sessions ≡ some session
    → (n : SessionManager) × (append_messages id messages m ≡ ok n)
      × (transcript other n
          ≡ (if str_eq id other then transcript id m ++ messages else transcript other m))
unfolding append_messages transcript
found-append id other session messages m h =
    let longer : Session = record session { messages = session.messages ++ messages } in
    (
      record { sessions = Dict.insert id longer m.sessions },
      rw (append_messages, h) refl,
      ground (arith, lookup-insert id other longer m.sessions, h),
    )

found-get_or_create :
    (fresh model_id id other : String) (m : SessionManager)
    → str_eq id "" ≡ false
    → let n = (get_or_create fresh model_id (some id) m).1 in
      ((session : Session) × (Dict.lookup id n.sessions ≡ some session))
      × (transcript other n ≡ transcript other m)
unfolding get_or_create resolve transcript
found-get_or_create fresh model_id id other m h =
    rw (get_or_create, resolve, h)
      (elim (Option-cases (Dict.lookup id m.sessions)) [
        | inr (session, e) ↦ rw e ((session, e), refl)
        | inl e ↦
            let session : Session = record {
              session_id = id;
              model_id = model_id;
              messages = [];
              active_sequence_id = none;
            } in
            rw e (
              (session, ground (arith, lookup-insert id id session m.sessions, str_eq_iff id id)),
              ground (arith, lookup-insert id other session m.sessions, str_eq_iff id other, e),
            )
      ])

-- For a non-empty session id, opening the session and appending messages succeeds, its transcript
-- is then what it was, empty if it was not there, followed by the messages, and the transcripts of
-- other sessions stay.
pub append-get_or_create :
    (fresh model_id id other : String) (messages : List Message) (m : SessionManager)
    → str_eq id "" ≡ false
    → (n : SessionManager) × (append_messages id messages
          (get_or_create fresh model_id (some id) m).1
        ≡ ok n)
      × (transcript other n
          ≡ (if str_eq id other then transcript id m ++ messages else transcript other m))
append-get_or_create fresh model_id id other messages m h =
    let made = (get_or_create fresh model_id (some id) m).1 in
    let ((session, e), own) = found-get_or_create fresh model_id id id m h in
    let (n, runs, read) = found-append id other session messages made e in
    (n, runs, ground (arith, read, own, (found-get_or_create fresh model_id id other m h).1))

-- Every session stands under its own id.
unfoldable pub IsKeyed : SessionManager → Type 0
IsKeyed m =
    (id : String) (session : Session)
    → Dict.lookup id m.sessions ≡ some session
    → session.session_id ≡ id

-- The session that `get_or_create` returns takes messages.
pub append_own :
    (fresh model_id : String) (session_id : Option String) (messages : List Message)
    (m : SessionManager)
    → IsKeyed m
    → let (session, made) = get_or_create fresh model_id session_id m in
      (n : SessionManager) × (append_messages session.session_id messages made ≡ ok n)
unfolding get_or_create append_messages IsKeyed
append_own fresh model_id session_id messages m keyed =
    let id = resolve fresh session_id in
    elim (Option-cases (Dict.lookup id m.sessions)) [
      | inr (session, e) ↦
          let there = ap (λ i. Dict.lookup i m.sessions) (keyed id session e) ∙ e in
          rw (get_or_create, e)
            (
              record {
                sessions =
                    Dict.insert session.session_id
                      (record session { messages = session.messages ++ messages }) m.sessions;
              },
              rw (append_messages, there) refl,
            )
      | inl e ↦
          let session : Session = record {
            session_id = id;
            model_id = model_id;
            messages = [];
            active_sequence_id = none;
          } in
          let there : Dict.lookup id (Dict.insert id session m.sessions) ≡ some session =
            ground (arith, lookup-insert id id session m.sessions, str_eq_iff id id) in
          rw (get_or_create, e)
            (
              record {
                sessions =
                    Dict.insert id (record session { messages = messages })
                      (Dict.insert id session m.sessions);
              },
              rw (append_messages, there) refl,
            )
    ]
