-- ===== src/Augment/Select.antt =====
-- `_select_messages_for_summary` of memori/memory/augmentation/augmentations/memori/_augmentation.py
use memori.Prelude.{
  String, ◌≡◌, refl, Bool, true, false, Option, none, some, List, [], ◌∷◌, ◌++◌, any, str_eq,
  if◌then◌else◌, arith,
}
use memori.Memory.Writer.{ConversationMessage}

abbrev pub has_role : String → ConversationMessage → Bool
has_role role m = str_eq m.role role

abbrev pub or_here :
    Bool
    → ConversationMessage
    → Option (List ConversationMessage × ConversationMessage)
    → Option (List ConversationMessage × ConversationMessage)
or_here here m (some (before, found)) = some (m ∷ before, found)
or_here true m none = some ([], m)
or_here false m none = none

-- The last message of a role, by the loops from the end, with the messages before it.
unfoldable pub last_of :
    String → List ConversationMessage → Option (List ConversationMessage × ConversationMessage)
last_of role [] = none
last_of role (m ∷ messages) = or_here (has_role role m) m (last_of role messages)

abbrev pub with_user :
    ConversationMessage
    → Option (List ConversationMessage × ConversationMessage)
    → List ConversationMessage
with_user assistant none = assistant ∷ []
with_user assistant (some (_, user)) = user ∷ assistant ∷ []

abbrev pub last_exchange :
    List ConversationMessage
    → Option (List ConversationMessage × ConversationMessage)
    → List ConversationMessage
last_exchange messages none = messages
last_exchange messages (some (before, assistant)) = with_user assistant (last_of "user" before)

unfoldable pub select_messages_for_summary :
    List ConversationMessage → String → List ConversationMessage
unfolding last_of
select_messages_for_summary messages summary =
    if str_eq summary "" then messages else last_exchange messages (last_of "assistant" messages)

last_of-none :
    (role : String) (ms : List ConversationMessage)
    → any (has_role role) ms ≡ false
    → last_of role ms ≡ none
unfolding last_of
last_of-none role [] h = refl
last_of-none role (m ∷ ms) h = ground (arith, last_of-none role ms)

last_of-append :
    (role : String) (before after : List ConversationMessage) (m : ConversationMessage)
    → has_role role m ≡ true
    → any (has_role role) after ≡ false
    → last_of role (before ++ m ∷ after) ≡ some (before, m)
unfolding last_of
last_of-append role [] after m h k = rw (last_of-none role after k) (rw h refl)
last_of-append role (b ∷ before) after m h k = rw (last_of-append role before after m h k) refl

-- Where there is a summary, the messages that are sent are the last one of the assistant, after the
-- last one of the user before it, if there is one; without a message of the assistant, all.
pub select_messages_for_summary_lem :
    (summary : String) (early before between after others : List ConversationMessage)
    (user assistant : ConversationMessage)
    → str_eq summary "" ≡ false
    → has_role "assistant" assistant ≡ true
    → any (has_role "assistant") after ≡ false
    → has_role "user" user ≡ true
    → any (has_role "user") between ≡ false
    → any (has_role "user") before ≡ false
    → any (has_role "assistant") others ≡ false
    → (select_messages_for_summary ((early ++ user ∷ between) ++ assistant ∷ after) summary
        ≡ user ∷ assistant ∷ [])
      × (select_messages_for_summary (before ++ assistant ∷ after) summary ≡ assistant ∷ [])
      × (select_messages_for_summary others summary ≡ others)
unfolding select_messages_for_summary
select_messages_for_summary_lem summary early before between after others user assistant s a na u nu
      nb no_assistant =
    (
      rw s (
          rw (last_of-append "assistant" (early ++ user ∷ between) after assistant a na)
            (rw (last_of-append "user" early between user u nu) refl)),
      rw s (
          rw (last_of-append "assistant" before after assistant a na)
            (rw (last_of-none "user" before nb) refl)),
      rw s (rw (last_of-none "assistant" others no_assistant) refl),
    )
