-- ===== src/Memory/Tests.antt =====
-- A session with two messages.
use kanna_pa.Prelude.{◌≡◌, refl, [], ◌∷◌}
use kanna_pa.Value.{end}
use kanna_pa.Memory.Sessions.{
  SessionTable, create_session, add_message, log_user_message, get_messages, messages_of,
}

abbrev one_session : SessionTable
unfolding create_session
one_session =
    (create_session "today" end
      (record { sessions = []; messages = []; next_session = 1; next_message = 1 })).1

hello :
    get_messages 1 (log_user_message 1 "hello" "now" one_session).1
    ≡ record { id = 1; session_id = 1; role = "user"; content = "hello"; created_at = "now" } ∷ []
unfolding get_messages messages_of log_user_message add_message create_session one_session
hello = refl
