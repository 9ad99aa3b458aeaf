-- ===== src/Memory/Sessions.antt =====
-- core/memory/repositories/sessions.py and core/agent/session.py: the tables `sessions` and
-- `messages`. Ids are numbers that are given once; the messages stand in the order of their ids.
use kanna_pa.Prelude.{
  ℕ, ◌+◌, String, ◌≡◌, refl, Option, none, some, List, [], ◌∷◌, ◌++◌, arith, ◌==◌, if◌then◌else◌,
}
use kanna_pa.Value.{Fields}

pub record Session : Type 0 where
  pub id : ℕ
  pub started_at : String
  pub ended_at : Option String
  pub metadata : Fields

pub record Message : Type 0 where
  pub id : ℕ
  pub session_id : ℕ
  pub role : String
  pub content : String
  pub created_at : String

pub record SessionTable : Type 0 where
  pub sessions : List Session
  pub messages : List Message
  pub next_session : ℕ
  pub next_message : ℕ

-- `SessionRepository.create`; no metadata is an empty dict.
unfoldable pub create_session : String → Fields → SessionTable → Session × SessionTable
create_session now metadata t =
    let row : Session = record {
      id = t.next_session;
      started_at = now;
      ended_at = none;
      metadata = metadata;
    } in
    (row, record t { sessions = t.sessions ++ row ∷ []; next_session = t.next_session + 1 })

unfoldable pub find_session : ℕ → List Session → Option Session
find_session i [] = none
find_session i (s ∷ rows) = if s.id == i then some s else find_session i rows

-- `UPDATE sessions SET ended_at = ? WHERE id = ?`
unfoldable pub end_rows : ℕ → String → List Session → List Session
end_rows i now [] = []
end_rows i now (s ∷ rows) =
    (if s.id == i then record s { ended_at = some now } else s) ∷ end_rows i now rows

unfoldable pub end_session : ℕ → String → SessionTable → SessionTable
unfolding end_rows
end_session i now t = record t { sessions = end_rows i now t.sessions }

unfoldable pub add_message : ℕ → (role content now : String) → SessionTable → Message × SessionTable
add_message i role content now t =
    let row : Message = record {
      id = t.next_message;
      session_id = i;
      role = role;
      content = content;
      created_at = now;
    } in
    (row, record t { messages = t.messages ++ row ∷ []; next_message = t.next_message + 1 })

unfoldable pub messages_of : ℕ → List Message → List Message
messages_of i [] = []
messages_of i (m ∷ rows) = if m.session_id == i then m ∷ messages_of i rows else messages_of i rows

unfoldable pub get_messages : ℕ → SessionTable → List Message
unfolding messages_of
get_messages i t = messages_of i t.messages

-- `AgentSession.log_user_message` and `log_assistant_message`
unfoldable pub log_user_message : ℕ → (content now : String) → SessionTable → Message × SessionTable
unfolding add_message
log_user_message i content now t = add_message i "user" content now t

unfoldable pub log_assistant_message :
    ℕ → (content now : String) → SessionTable → Message × SessionTable
unfolding add_message
log_assistant_message i content now t = add_message i "assistant" content now t

messages_of-append :
    (i : ℕ) (rows : List Message) (m : Message)
    → messages_of i (rows ++ m ∷ [])
      ≡ (if m.session_id == i then messages_of i rows ++ m ∷ [] else messages_of i rows)
unfolding messages_of
messages_of-append i [] m = refl
messages_of-append i (n ∷ rows) m = ground (arith, messages_of-append i rows m)

-- A message stands behind the earlier ones of its session, and no other session's messages change.
pub get_messages-add_message :
    (i j : ℕ) (role content now : String) (t : SessionTable)
    → get_messages j (add_message i role content now t).1 ≡ (
        if i == j
        then get_messages j t ++ (add_message i role content now t).0 ∷ []
        else get_messages j t)
unfolding get_messages add_message
get_messages-add_message i j role content now t = messages_of-append j t.messages _
