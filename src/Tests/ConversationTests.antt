-- ===== src/Tests/ConversationTests.antt =====
-- The theorems on conversations at work: Carol writes to Bob again.
use realynk.Base.{◌≡◌, refl, subst, sym, arith}
use realynk.Models.{Db}
use realynk.Session.{rejected}
use realynk.Session.Ends.{Ends}
use realynk.Constraints.Checked.{
  holds, holds-Constraints, checking, checking-Enforces, checking-RestoresOn,
}
use realynk.Conversations.{create_or_reopen}
use realynk.Conversations.Opening.{IsGood, Opened, create_or_reopen-Opened}
use realynk.Tests.Scenario.{town}

town-IsGood : IsGood town
unfolding holds
town-IsGood = record {
  constraints = holds-Constraints town refl;
  paired = (record { ordered = omega arith; first = refl; second = refl }, tt);
}

rolls : (p d' : Db) → checking town p ≡ rejected d' → IsGood d'
rolls p d' e = subst IsGood (sym (checking-RestoresOn town p d' e)) town-IsGood

create_or_reopen-Opened_example :
    Ends (Opened 3 2) (create_or_reopen (checking town) 21 202 203 9 3 2) town
create_or_reopen-Opened_example =
    create_or_reopen-Opened (checking town) (checking-Enforces town) rolls 3 2 21 202 203 9 town
      town-IsGood
