-- ===== src/App/Billing.antt =====
-- lib/quota.ts and lib/annual-switch.ts: the free tier's cap, and the change to annual billing. The
-- payment provider's `patch` is the effect that a switch returns.
use htmlradar.Common.{
  ℕ, ◌-◌, ◌≡◌, ◌≢◌, refl, Bool, true, false, not, ◌&&◌, ◌↔◌, inl, inr, Option, none, some, List, [],
  ◌∷◌, Text, codes, same, same_iff, same_sound, leb, or_else, arith, Bool-cases, if◌then◌else◌,
}
use htmlradar.Proxy.World.{Tier, free, pro}

abbrev pub free_tier_cap : ℕ
free_tier_cap = 2

abbrev is_free : Tier → Bool
is_free free = true
is_free pro = false

pub record QuotaState : Type 0 where
  pub tier : Tier
  pub used : ℕ
  pub cap : ℕ
  pub remaining : ℕ
  pub at_cap : Bool

-- `computeAtCap`
unfoldable pub compute_at_cap : Tier → ℕ → ℕ → Bool
compute_at_cap tier used cap = is_free tier && leb cap used

-- `readQuota`, on what its two queries answered.
unfoldable pub read_quota : Option Tier → Option ℕ → QuotaState
unfolding compute_at_cap
read_quota profile count =
    let tier = or_else profile free in
    let used = or_else count 0 in
    record {
      tier = tier;
      used = used;
      cap = free_tier_cap;
      remaining = free_tier_cap - used;
      at_cap = compute_at_cap tier used free_tier_cap;
    }

pub record ActiveSubscription : Type 0 where
  pub id : Text
  pub canceling : Bool
  pub recurring_interval : Text
  pub product_id : Text
  pub amount : ℕ

abbrev is_pro : Tier → Bool
is_pro free = false
is_pro pro = true

abbrev is_empty_text : Text → Bool
is_empty_text [] = true
is_empty_text (c ∷ s) = false

abbrev is_monthly : ActiveSubscription → Bool
is_monthly sub = same sub.recurring_interval (codes "month")

unfoldable pub should_offer_annual_switch : Tier → Option ActiveSubscription → Text → Bool
should_offer_annual_switch tier none annual = false
should_offer_annual_switch tier (some sub) annual =
    is_pro tier && not (is_empty_text annual) && is_monthly sub && not sub.canceling

pub data Reason : Type 0 where
  not_configured no_subscription not_monthly canceling : Reason

pub data SwitchResult : Type 0 where
  switched : (patched : Bool) → SwitchResult
  refused : Reason → SwitchResult

-- A patch of a subscription to a product.
pub record Patch : Type 0 where
  pub subscription_id : Text
  pub product_id : Text

switch_sub : ActiveSubscription → Text → SwitchResult × List Patch
switch_sub sub annual =
    if same sub.product_id annual
    then (switched false, [])
    else if not (is_monthly sub)
    then (refused not_monthly, [])
    else if sub.canceling
    then (refused canceling, [])
    else (switched true, record { subscription_id = sub.id; product_id = annual } ∷ [])

unfoldable pub switch_to_annual : Option ActiveSubscription → Text → SwitchResult × List Patch
unfolding switch_sub
switch_to_annual sub annual =
    if is_empty_text annual
    then (refused not_configured, [])
    else elim sub [ none ↦ (refused no_subscription, []) | some s ↦ switch_sub s annual ]

-- The cap blocks exactly the free accounts that have none of their links left.
pub read_quota-at_cap :
    (profile : Option Tier) (count : Option ℕ)
    → ((read_quota profile count).at_cap ≡ true)
      ↔ (((read_quota profile count).tier ≡ free) × ((read_quota profile count).remaining ≡ 0))
unfolding read_quota compute_at_cap
read_quota-at_cap none none = (λ h. ground arith, λ h. ground arith)
read_quota-at_cap none (some n) = (λ h. (refl, ground arith), λ h. ground arith)
read_quota-at_cap (some free) none = (λ h. ground arith, λ h. ground arith)
read_quota-at_cap (some free) (some n) = (λ h. (refl, ground arith), λ h. ground arith)
read_quota-at_cap (some pro) count = (λ h. cc, λ h. cc)

-- What the offer promises is what the switch does: a subscription of another product that is offered
-- the annual plan is patched, once, to that product.
pub switch_to_annual-offer :
    (tier : Tier) (sub : ActiveSubscription) (annual : Text)
    → should_offer_annual_switch tier (some sub) annual ≡ true
    → sub.product_id ≢ annual
    → switch_to_annual (some sub) annual
      ≡ (switched true, record { subscription_id = sub.id; product_id = annual } ∷ [])
unfolding should_offer_annual_switch switch_to_annual switch_sub
switch_to_annual-offer tier sub annual h n = elim (Bool-cases (same sub.product_id annual)) [
  | inl e ↦ absurd (n (same_sound sub.product_id annual e))
  | inr e ↦ ground arith
]

-- The second call, for a subscription of the annual product.
again_settled :
    (sub : ActiveSubscription) (annual : Text)
    → is_empty_text annual ≡ false
    → sub.product_id ≡ annual
    → switch_to_annual (some sub) annual ≡ (switched false, [])
unfolding switch_to_annual switch_sub
again_settled sub annual h e =
    let settled : same sub.product_id annual ≡ true = (same_iff sub.product_id annual).1 e in
    ground arith

-- A subscription is patched only when it is billed by the month, is not being cancelled and is not of
-- the annual product yet; asked again after the patch, the switch succeeds and patches nothing.
pub switch_to_annual-patch :
    (sub : ActiveSubscription) (annual : Text) (patch : Patch) (rest : List Patch)
    → (switch_to_annual (some sub) annual).1 ≡ patch ∷ rest
    → (sub.recurring_interval ≡ codes "month")
      × (sub.canceling ≡ false)
      × (sub.product_id ≢ annual)
      × (patch.subscription_id ≡ sub.id)
      × (switch_to_annual (some (record sub { product_id = patch.product_id })) annual
          ≡ (switched false, []))
unfolding switch_to_annual switch_sub
switch_to_annual-patch sub annual patch rest h =
    let configured : is_empty_text annual ≡ false = ground arith in
    let other : same sub.product_id annual ≡ false = ground arith in
    let monthly : is_monthly sub ≡ true = ground arith in
    let running : sub.canceling ≡ false = ground arith in
    let same_patch : record { subscription_id = sub.id; product_id = annual } ≡ patch =
      ground arith in
    (
      same_sound sub.recurring_interval (codes "month") monthly,
      running,
      λ e. cc (other, (same_iff sub.product_id annual).1 e),
      cc,
      again_settled (record sub { product_id = patch.product_id }) annual configured (cc),
    )
