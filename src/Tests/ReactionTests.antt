-- ===== src/Tests/ReactionTests.antt =====
-- Alice takes her reaction back.
use realynk.Base.{◌≡◌, refl, true, [], ◌∷◌, codes}
use realynk.Models.{Db, MessageReaction}
use realynk.Session.{is_ok, ◌>>=◌}
use realynk.Session.Ends.{Ends}
use realynk.Constraints.{Constraints}
use realynk.Constraints.Checked.{holds, holds-Constraints, checking, checking-RestoresOn}
use realynk.Messages.{find_context, channel_context, get_message_for_user}
use realynk.Channels.{get_channel_for_user}
use realynk.Reactions.{access, message_and_context, remove_reaction}
use realynk.Reactions.Removal.{RemoveOutcome, remove_reaction-RemoveOutcome}
use realynk.Tests.Scenario.{town, alice}

abbrev smile : MessageReaction
smile = record { id = 700; message_id = 30; user_id = 1; emoji = codes "🙂" }

abbrev reacted_town : Db
reacted_town = record town { reactions = smile ∷ [] }

reacted_town-Constraints : Constraints reacted_town
unfolding holds
reacted_town-Constraints = holds-Constraints reacted_town refl

removes :
    is_ok (remove_reaction (checking reacted_town) 7 alice 30 (codes "🙂") reacted_town).0 ≡ true
unfolding remove_reaction access message_and_context get_message_for_user find_context
    channel_context get_channel_for_user checking ◌>>=◌
removes = refl

remove_reaction-RemoveOutcome_example :
    Ends
      (RemoveOutcome (checking reacted_town) 7 alice 30 (codes "🙂") reacted_town)
      (remove_reaction (checking reacted_town) 7 alice 30 (codes "🙂"))
      reacted_town
remove_reaction-RemoveOutcome_example =
    remove_reaction-RemoveOutcome (checking reacted_town) 7 alice 30 (codes "🙂") reacted_town
      reacted_town-Constraints (checking-RestoresOn reacted_town)
