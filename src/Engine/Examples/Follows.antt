-- ===== src/Engine/Examples/Follows.antt =====
-- The theorems on follow relations in the first state.
use furima_sandbox.Prelude.{◌≡◌, refl, []}
use furima_sandbox.Text.{text, Text-discrete}
use furima_sandbox.Engine.Ident.{Ident, literal, Ident-discrete}
use furima_sandbox.Engine.State.{EngineState}
use furima_sandbox.Engine.Initial.{create_state}
use furima_sandbox.Engine.Follows.{link, unlink, follow_user, unfollow_user}
use furima_sandbox.Engine.Soundness.Follows.{
  HasProperFollows, follow_user-HasProperFollows, unlink-link,
}
use furima_sandbox.Engine.Examples.{shop, as_buyer, buyer_id}

abbrev seller_id : Ident
seller_id = literal (text "seller_01")

-- The shop once the buyer follows the seller.
abbrev followed : EngineState
followed = (follow_user seller_id as_buyer shop).1

follow_user-HasProperFollows_example :
    HasProperFollows followed × HasProperFollows (unfollow_user seller_id as_buyer shop).1
unfolding create_state
follow_user-HasProperFollows_example = follow_user-HasProperFollows seller_id as_buyer shop tt

unlink-link_example : (unlink buyer_id seller_id (link buyer_id seller_id shop).1).1.follows ≡ []
unfolding create_state Ident-discrete Text-discrete
unlink-link_example = unlink-link buyer_id seller_id shop refl refl refl
