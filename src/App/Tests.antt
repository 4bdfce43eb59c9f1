-- ===== src/App/Tests.antt =====
-- An account and its subscription, and a few addresses.
use htmlradar.Common.{◌≡◌, ◌≢◌, refl, true, false, some, [], ◌∷◌, Text, codes, same}
use htmlradar.Proxy.World.{pro}
use htmlradar.App.Billing.{
  ActiveSubscription, Patch, switched, should_offer_annual_switch, switch_to_annual,
  switch_to_annual-patch,
}
use htmlradar.App.Redirects.{safe_next, NamesHost}

abbrev sub : ActiveSubscription
sub = record {
  id = codes "sub_1";
  canceling = false;
  recurring_interval = codes "month";
  product_id = codes "monthly";
  amount = 900;
}

abbrev annual : Text
annual = codes "annual"

abbrev patch : Patch
patch = record { subscription_id = codes "sub_1"; product_id = annual }

offered : should_offer_annual_switch pro (some sub) annual ≡ true
unfolding should_offer_annual_switch same
offered = refl

other_product : sub.product_id ≢ annual
other_product e = cc

patched : (switch_to_annual (some sub) annual).1 ≡ patch ∷ []
unfolding switch_to_annual same
patched = refl

switch_to_annual-patch_example :
    (sub.recurring_interval ≡ codes "month")
    × (sub.canceling ≡ false)
    × (sub.product_id ≢ annual)
    × (patch.subscription_id ≡ sub.id)
    × (switch_to_annual (some (record sub { product_id = annual })) annual ≡ (switched false, []))
switch_to_annual-patch_example = switch_to_annual-patch sub annual patch [] patched

-- A tab stands between the two slashes.
abbrev tabbed : Text
tabbed = b'/' ∷ 9 ∷ codes "/evil.com"

tabbed_leaves : NamesHost (safe_next (some tabbed))
unfolding safe_next
tabbed_leaves = refl

doubled_stays : safe_next (some (codes "//evil.com")) ≡ codes "/docs"
unfolding safe_next
doubled_stays = refl
