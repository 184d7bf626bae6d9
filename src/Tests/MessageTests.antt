-- ===== src/Tests/MessageTests.antt =====
-- The theorems on messages and reads at work, on Bob's message to the lobby.
use realynk.Base.{◌≡◌, refl, suc, true, false, codes}
use realynk.Models.{Db}
use realynk.Session.{is_ok}
use realynk.Session.Ends.{Ends}
use realynk.Constraints.Checked.{checking, checking-Enforces, checking-RestoresOn}
use realynk.Repositories.{get_message}
use realynk.Messages.{get_message_for_user, edit_message, delete_message}
use realynk.Messages.Access.{can_reach, is_visible, Shows, get_message_for_user-is_visible}
use realynk.Messages.Edits.{EditOutcome, edit_message-Edited, delete_message-fails}
use realynk.Reads.{mark_read, unread_count, add_read, new_read}
use realynk.Reads.Marking.{MarkOutcome, mark_read-MarkOutcome}
use realynk.Reads.Unread.{unread_count-add_read}
use realynk.Tests.Scenario.{alice, bob, hello, town}

get_message_for_user-is_visible_example :
    Ends
      (λ r d'.
        (is_ok r ≡ is_visible 1 town (get_message 30 town))
        × (d' ≡ town)
        × Shows (get_message 30 town) r)
      (get_message_for_user 7 1 30)
      town
get_message_for_user-is_visible_example = get_message_for_user-is_visible 7 1 30 town

-- Alice sees the message, and Carol does not.
alice_sees : is_visible 1 town (get_message 30 town) ≡ true
unfolding can_reach
alice_sees = refl

carol_blind : is_visible 3 town (get_message 30 town) ≡ false
unfolding can_reach
carol_blind = refl

edit_message-Edited_example :
    Ends
      (EditOutcome 7 8 bob hello (codes "hi") town)
      (edit_message (checking town) 7 8 bob hello (codes "hi"))
      town
edit_message-Edited_example =
    edit_message-Edited (checking town) town (checking-RestoresOn town) hello refl 7 8 bob
      (codes "hi")

delete_message-fails_example :
    Ends (λ r d'. (is_ok r ≡ false) × (d' ≡ town)) (delete_message (checking town) 8 bob hello) town
delete_message-fails_example =
    delete_message-fails (checking town) town (checking-RestoresOn town) hello refl
      (checking-Enforces town) 8 bob

mark_read-MarkOutcome_example :
    Ends
      (MarkOutcome (checking town) 400 8 1 30 town)
      (mark_read (checking town) 400 7 8 alice 30)
      town
mark_read-MarkOutcome_example =
    mark_read-MarkOutcome (checking town) 400 7 8 alice 30 town (checking-RestoresOn town)

abbrev read_town : Db
read_town = add_read (new_read 400 8 30 1) town

unread_count-add_read_example :
    unread_count 1 town ≡ suc (unread_count 1 (add_read (new_read 400 8 30 1) town))
unread_count-add_read_example = unread_count-add_read 400 8 1 town hello (refl, tt) refl refl
