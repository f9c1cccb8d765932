-- ===== src/Plan/Terms.antt =====
-- Whether a place's prices and terms make one order (`place_order_terms_error` in
-- native/strategy_core_v3/src/decision_v6.rs).
use strategy_core.Common.{
  ℕ, ◌≤◌, ◌≡◌, ◌≢◌, ◌⊎◌, ◌↔◌, refl, inl, inr, String, Bool, true, false, not, ◌&&◌, ◌||◌, Option,
  none, some, arith, is_some, is_none, is_some_and, ltb, leb, if◌then◌else◌,
}
use strategy_core.Wire.Bounds.{max_price_micros}
use strategy_core.Wire.Orders.{OrderActionV6, OrderTypeV6, TimePolicyV6}
use strategy_core.Wire.Commands.{PlaceOrderV6}

abbrev is_immediate : TimePolicyV6 → Bool
is_immediate TimePolicyV6.good_till_canceled = false
is_immediate TimePolicyV6.immediate_or_cancel = true
is_immediate TimePolicyV6.fill_or_kill = true

abbrev is_limit_type : OrderTypeV6 → Bool
is_limit_type OrderTypeV6.limit = true
is_limit_type OrderTypeV6.market = false

abbrev is_sell_action : OrderActionV6 → Bool
is_sell_action OrderActionV6.sell = true
is_sell_action OrderActionV6.buy = false

-- `(1..=MAX_PRICE_MICROS).contains(&cap)`
abbrev valid_cap : ℕ → Bool
valid_cap cap = leb 1 cap && leb cap max_price_micros

-- The arms of the match on the action and the order type, in order.
unfoldable pub terms_error : OrderActionV6 → OrderTypeV6 → PlaceOrderV6 → Option String
terms_error action order_type order =
    let immediate = is_immediate order.time_policy in
    let limit = is_limit_type order_type in
    let sell = is_sell_action action in
    if limit && is_none order.limit_price_micros
    then some "a limit order needs a limit price"
    else if limit && is_some_and order.limit_price_micros (ltb max_price_micros)
    then some "the limit price is not within [0, 1]"
    else if not limit && is_some order.limit_price_micros
    then some "a market order has no limit price"
    else if not sell
        && not limit
        && is_some_and order.market_price_cap_micros (λ cap. not (valid_cap cap))
    then some "the price cap is not within (0, 1]"
    else if (sell || limit) && is_some order.market_price_cap_micros
    then some "only a market buy has a price cap"
    else if sell && not limit && not immediate
    then some "a market sell is immediate-or-cancel or fill-or-kill"
    else if order.post_only && not limit
    then some "a post-only order is a limit order"
    else if order.post_only && immediate
    then some "a post-only order is good-till-canceled"
    else if is_some order.expires_after_ms && immediate
    then some "only a good-till-canceled order expires"
    else none

unfoldable pub place_order_terms_error : PlaceOrderV6 → Option String
unfolding terms_error
place_order_terms_error order = terms_error order.action order.order_type order

-- The terms of a limit order: a price within one dollar and no cap.
pub record LimitTerms (order : PlaceOrderV6) : Type 0 where
  pub price : (p : ℕ) × (order.limit_price_micros ≡ some p) × (p ≤ max_price_micros)
  pub uncapped : order.market_price_cap_micros ≡ none

-- The terms of a market buy: no price, and a positive cap within one dollar if there is one.
pub record MarketBuyTerms (order : PlaceOrderV6) : Type 0 where
  pub priceless : order.limit_price_micros ≡ none
  pub cap : (c : ℕ) → order.market_price_cap_micros ≡ some c → (1 ≤ c) × (c ≤ max_price_micros)
  pub takes : order.post_only ≡ false

-- The terms of a market sell: neither, and it does not rest.
pub record MarketSellTerms (order : PlaceOrderV6) : Type 0 where
  pub priceless : order.limit_price_micros ≡ none
  pub uncapped : order.market_price_cap_micros ≡ none
  pub immediate : order.time_policy ≢ TimePolicyV6.good_till_canceled
  pub takes : order.post_only ≡ false

abbrev TypeTerms : OrderActionV6 → OrderTypeV6 → PlaceOrderV6 → Type 0
TypeTerms action OrderTypeV6.limit order = LimitTerms order
TypeTerms OrderActionV6.buy OrderTypeV6.market order = MarketBuyTerms order
TypeTerms OrderActionV6.sell OrderTypeV6.market order = MarketSellTerms order

-- What the documentation of the order terms asks for.
pub record TermsAgree (order : PlaceOrderV6) : Type 0 where
  pub by_type : TypeTerms order.action order.order_type order
  pub resting :
      (order.post_only ≡ true) ⊎ (is_some order.expires_after_ms ≡ true)
      → order.time_policy ≡ TimePolicyV6.good_till_canceled

limit_price :
    (o : Option ℕ)
    → is_none o ≡ false
    → is_some_and o (ltb max_price_micros) ≡ false
    → (p : ℕ) × (o ≡ some p) × (p ≤ max_price_micros)
limit_price none h k = cc
limit_price (some p) h k = (p, refl, ground arith)

terms_error_sound :
    (action : OrderActionV6) (order_type : OrderTypeV6) (order : PlaceOrderV6)
    → terms_error action order_type order ≡ none
    → TypeTerms action order_type order
unfolding terms_error
terms_error_sound action OrderTypeV6.limit order h = record {
  price = limit_price order.limit_price_micros (ground arith) (ground arith);
  uncapped = ground arith;
}
terms_error_sound OrderActionV6.buy OrderTypeV6.market order h = record {
  priceless = ground arith;
  cap = λ c e. ground arith;
  takes = ground arith;
}
terms_error_sound OrderActionV6.sell OrderTypeV6.market order h = record {
  priceless = ground arith;
  uncapped = ground arith;
  immediate = λ e. ground arith;
  takes = ground arith;
}

abbrev Resting : PlaceOrderV6 → Type 0
Resting order =
    (order.post_only ≡ true) ⊎ (is_some order.expires_after_ms ≡ true)
    → order.time_policy ≡ TimePolicyV6.good_till_canceled

terms_error-Resting :
    (action : OrderActionV6) (order_type : OrderTypeV6) (order : PlaceOrderV6)
    → terms_error action order_type order ≡ none
    → Resting order
unfolding terms_error
terms_error-Resting action order_type order h (inl post) = ground arith
terms_error-Resting action order_type order h (inr expires) = ground arith

cap_in_range :
    (o : Option ℕ)
    → ((c : ℕ) → o ≡ some c → (1 ≤ c) × (c ≤ max_price_micros))
    → is_some_and o (λ cap. not (valid_cap cap)) ≡ false
cap_in_range none h = refl
cap_in_range (some c) h = ground (arith, h c refl)

terms_error_complete :
    (action : OrderActionV6) (order_type : OrderTypeV6) (order : PlaceOrderV6)
    → TypeTerms action order_type order
    → Resting order
    → terms_error action order_type order ≡ none
unfolding terms_error
terms_error_complete action OrderTypeV6.limit order t r =
    ground (arith, t.price.1, t.price.2, t.uncapped, r)
terms_error_complete OrderActionV6.buy OrderTypeV6.market order t r =
    ground (arith, t.priceless, cap_in_range order.market_price_cap_micros t.cap, t.takes, r)
terms_error_complete OrderActionV6.sell OrderTypeV6.market order t r =
    ground (arith, t.priceless, t.uncapped, t.immediate, t.takes, r)

-- A place has no terms error exactly when its terms agree with their documentation.
pub place_order_terms_error_lem :
    (order : PlaceOrderV6) → (place_order_terms_error order ≡ none) ↔ TermsAgree order
unfolding place_order_terms_error
place_order_terms_error_lem order = (
  λ h. record {
    by_type = terms_error_sound order.action order.order_type order h;
    resting = terms_error-Resting order.action order.order_type order h;
  },
  λ t. terms_error_complete order.action order.order_type order t.by_type t.resting,
)
