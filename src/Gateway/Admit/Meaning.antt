-- ===== src/Gateway/Admit/Meaning.antt =====
-- What the message rate, the own orders and a bound on an absolute value ask of a new order, without the
-- functions of the gateway that test it.
use asterion.Prelude.{
  ℕ, suc, ◌%◌, ◌^◌, ◌<◌, ◌≤◌, ◌≡◌, ◌↔◌, inl, inr, ◌⊎◌, refl, ap, ◌∙◌, Bool, true, false, not, ◌||◌,
  some, List, [], ◌∷◌, ◌++◌, All, Bool-cases, Option-cases, arith, length, length-append, ◌==◌,
  if◌then◌else◌, if_true, if_false, leb,
}
use asterion.Prelude.Int.{ℤ, pos, ◌-ℤ◌, neg_ℤ, neg_ℤ_parts, ◌≤ℤ◌, ◌<ℤ◌, leb_ℤ}
use asterion.Prelude.Assoc.{find}
use asterion.Core.Types.{Side, buy, sell}
use asterion.Matching.Admit.{NewOrderRequest}
use asterion.Portfolio.{abs_i64}
use asterion.Gateway.Rate.{drop_expired, rate_or_new, count_message, rate_limit_allows}
use asterion.Gateway.{
  RiskGateway, RateState, RateLimitMode, fixed_window, sliding_window, ClientWorkingBook,
  client_symbol_key,
}
use asterion.Gateway.Admit.{is_market_order, self_trade_check_allows}

-- At most `bound` away from zero.
abbrev pub IsWithin : ℤ → ℤ → Type 0
IsWithin bound v = (v ≤ℤ bound) × (neg_ℤ v ≤ℤ bound)

pub abs_i64-IsWithin : (bound v : ℤ) → (abs_i64 v ≤ℤ bound) ↔ IsWithin bound v
unfolding abs_i64
abs_i64-IsWithin bound v = (
  λ h. (ground (arith, neg_ℤ_parts v), ground (arith, neg_ℤ_parts v)),
  λ h. ground (arith, h.0, h.1),
)

module _ (window now_ns : ℤ) where
  abbrev pub IsOld : ℤ → Type 0
  IsOld t = window ≤ℤ now_ns -ℤ t

  -- The first time, if there is one, is less than a window old.
  abbrev pub StartsYoung : List ℤ → Type 0
  StartsYoung [] = Unit
  StartsYoung (t ∷ ts) = now_ns -ℤ t <ℤ window

  drop_expired-old :
      (old kept : List ℤ)
      → All IsOld old
      → StartsYoung kept
      → drop_expired window now_ns (old ++ kept) ≡ kept
  unfolding drop_expired
  drop_expired-old [] [] a y = refl
  drop_expired-old [] (t ∷ ts) a y = ground arith
  drop_expired-old (t ∷ ts) kept a y = ground (arith, a.0, drop_expired-old ts kept a.1 y)

  drop_expired-split :
      (ts : List ℤ)
      → (old : List ℤ) × (ts ≡ old ++ drop_expired window now_ns ts)
        × All IsOld old
        × StartsYoung (drop_expired window now_ns ts)
  unfolding drop_expired
  drop_expired-split [] = ([], refl, tt, tt)
  drop_expired-split (t ∷ ts) = elim (Bool-cases (leb_ℤ window (now_ns -ℤ t))) [
    | inl gone ↦
        let (old, e, a, y) = drop_expired-split ts in
        rw gone (t ∷ old, ap (λ l. t ∷ l) e, (ground arith, a), y)
    | inr young ↦ rw young ([], refl, tt, ground arith)
  ]

-- The message keeps within the rate, where there is a limit and a window. With a sliding window, the times
-- of the client's messages from the first that is less than a window old, and this message, are at most the
-- limit. With a fixed window, so is the 32-bit count of the messages since its start, with this one.
pub record IsInRate (r : NewOrderRequest) (now_ns : ℤ) (g : RiskGateway) : Type 0 where
  pub sliding :
      g.limits.rate_limit_mode ≡ sliding_window
      → 0 < g.limits.max_messages_per_window
      → pos 0 <ℤ g.limits.rate_window_ns
      → (old kept : List ℤ)
      → (rate_or_new (find r.client_id g.rate_states)).sliding_timestamps ≡ old ++ kept
      → All (IsOld g.limits.rate_window_ns now_ns) old
      → StartsYoung g.limits.rate_window_ns now_ns kept
      → suc (length kept) ≤ g.limits.max_messages_per_window
  pub fixed :
      g.limits.rate_limit_mode ≡ fixed_window
      → 0 < g.limits.max_messages_per_window
      → pos 0 <ℤ g.limits.rate_window_ns
      → (rate_or_new (find r.client_id g.rate_states)).active ≡ true
      → now_ns -ℤ (rate_or_new (find r.client_id g.rate_states)).window_start_ns
        <ℤ g.limits.rate_window_ns
      → suc (rate_or_new (find r.client_id g.rate_states)).count % 2 ^ 32
        ≤ g.limits.max_messages_per_window

mode_cases : (m : RateLimitMode) → (m ≡ fixed_window) ⊎ (m ≡ sliding_window)
mode_cases fixed_window = inl refl
mode_cases sliding_window = inr refl

module _ (r : NewOrderRequest) (now_ns : ℤ) (g : RiskGateway) where
  abbrev state : RateState
  state = rate_or_new (find r.client_id g.rate_states)

  abbrev unlimited : Bool
  unlimited = (g.limits.max_messages_per_window == 0) || leb_ℤ g.limits.rate_window_ns (pos 0)

  abbrev counted : ℕ
  counted = (count_message g.limits.rate_limit_mode g.limits.rate_window_ns now_ns state).1

  allowed_lem :
      (rate_limit_allows r now_ns g).1
      ≡ (if unlimited then true else leb counted g.limits.max_messages_per_window)
  unfolding rate_limit_allows
  allowed_lem = elim (Bool-cases unlimited) [ inl e ↦ rw e refl | inr e ↦ rw e refl ]

  counted_sliding :
      g.limits.rate_limit_mode ≡ sliding_window
      → counted
        ≡ suc (length (drop_expired g.limits.rate_window_ns now_ns state.sliding_timestamps))
  unfolding count_message
  counted_sliding mode =
      let kept = drop_expired g.limits.rate_window_ns now_ns state.sliding_timestamps in
      let added : length (kept ++ now_ns ∷ []) ≡ suc (length kept) =
        omega (arith, length-append kept (now_ns ∷ [])) in
      rw mode added

  counted_fixed :
      g.limits.rate_limit_mode ≡ fixed_window
      → counted
        ≡ suc (
            if not state.active || leb_ℤ g.limits.rate_window_ns (now_ns -ℤ state.window_start_ns)
            then 0
            else state.count)
          % 2 ^ 32
  unfolding count_message
  counted_fixed mode = rw mode refl

  allowed_sliding :
      g.limits.rate_limit_mode ≡ sliding_window
      → ((rate_limit_allows r now_ns g).1 ≡ true) ↔ IsInRate r now_ns g
  allowed_sliding mode = (there, back)
    where
      there : (rate_limit_allows r now_ns g).1 ≡ true → IsInRate r now_ns g
      there h = record {
        sliding = λ _ limited windowed old kept e a y.
            let left : drop_expired g.limits.rate_window_ns now_ns state.sliding_timestamps ≡ kept =
              ap (drop_expired g.limits.rate_window_ns now_ns) e
              ∙ drop_expired-old g.limits.rate_window_ns now_ns old kept a y in
            let count : counted ≡ suc (length kept) =
              counted_sliding mode ∙ ap (λ l. suc (length l)) left in
            ground (arith, allowed_lem);
        fixed = λ m. absurd (cc (m, mode));
      }

      back : IsInRate r now_ns g → (rate_limit_allows r now_ns g).1 ≡ true
      back w =
          let (old, e, a, y) =
            drop_expired-split g.limits.rate_window_ns now_ns state.sliding_timestamps in
          let count = counted_sliding mode in
          elim (Bool-cases unlimited) [
            | inl off ↦ allowed_lem ∙ if_true _ _ off
            | inr on ↦
                let bounded =
                  w.sliding mode (ground arith) (ground arith) old
                    (drop_expired g.limits.rate_window_ns now_ns state.sliding_timestamps) e a y in
                allowed_lem ∙ if_false _ _ on ∙ ground arith
          ]

  allowed_fixed :
      g.limits.rate_limit_mode ≡ fixed_window
      → ((rate_limit_allows r now_ns g).1 ≡ true) ↔ IsInRate r now_ns g
  allowed_fixed mode = (
    λ h. record {
      sliding = λ m. absurd (cc (m, mode));
      fixed = λ _ limited windowed active young. ground (arith, allowed_lem, counted_fixed mode);
    },
    λ w. elim (Bool-cases unlimited) [
      | inl off ↦ allowed_lem ∙ if_true _ _ off
      | inr on ↦ allowed_lem ∙ if_false _ _ on ∙ ground (arith, counted_fixed mode, w.fixed mode)
    ],
  )

  pub rate_limit_allows-IsInRate : ((rate_limit_allows r now_ns g).1 ≡ true) ↔ IsInRate r now_ns g
  rate_limit_allows-IsInRate = elim (mode_cases g.limits.rate_limit_mode) [
    | inl mode ↦ allowed_fixed mode
    | inr mode ↦ allowed_sliding mode
  ]

-- Where self-trade prevention applies, the order does not reach the best own price of the other side.
pub record MeetsNoOwn (r : NewOrderRequest) (g : RiskGateway) : Type 0 where
  pub buys :
      g.limits.enable_self_trade_prevention ≡ true
      → r.post_only ≡ false
      → r.side ≡ buy
      → (b : ClientWorkingBook) (p q : ℤ) (rest : List (ℤ × ℤ))
      → find (client_symbol_key r.client_id r.symbol_id) g.client_books ≡ some b
      → b.sell_qty_by_price ≡ (p, q) ∷ rest
      → (is_market_order r.order_type ≡ false) × (r.price_ticks <ℤ p)
  pub sells :
      g.limits.enable_self_trade_prevention ≡ true
      → r.post_only ≡ false
      → r.side ≡ sell
      → (b : ClientWorkingBook) (p q : ℤ) (rest : List (ℤ × ℤ))
      → find (client_symbol_key r.client_id r.symbol_id) g.client_books ≡ some b
      → b.buy_qty_by_price ≡ (p, q) ∷ rest
      → (is_market_order r.order_type ≡ false) × (p <ℤ r.price_ticks)

list_cases : {A : Type 0} (xs : List A) → (xs ≡ []) ⊎ ((x : A) × (rest : List A) × (xs ≡ x ∷ rest))
list_cases [] = inl refl
list_cases (x ∷ xs) = inr (x, xs, refl)

side_cases : (s : Side) → (s ≡ buy) ⊎ ((s ≡ sell) ⊎ (s ≡ Side.none))
side_cases buy = inl refl
side_cases sell = inr (inl refl)
side_cases Side.none = inr (inr refl)

module _ (r : NewOrderRequest) (g : RiskGateway) where
  pub self_trade_check_allows-MeetsNoOwn : ((self_trade_check_allows r g).0 ≡ true) ↔ MeetsNoOwn r g
  unfolding self_trade_check_allows
  self_trade_check_allows-MeetsNoOwn = (
    λ h. record {
      buys = λ on active side b p q rest e first. ground arith;
      sells = λ on active side b p q rest e first. ground arith;
    },
    λ w. elim (Bool-cases (not g.limits.enable_self_trade_prevention || r.post_only)) [
      | inl off ↦ ground arith
      | inr on ↦
          elim (Option-cases (find (client_symbol_key r.client_id r.symbol_id) g.client_books)) [
            | inl e ↦ ground arith
            | inr (b, e) ↦ elim (side_cases r.side) [
              | inl side ↦ elim (list_cases b.sell_qty_by_price) [
                | inl empty ↦ ground arith
                | inr ((p, q), rest, first) ↦
                    let m = w.buys (ground arith) (ground arith) side b p q rest e first in
                    ground (arith, m.0, m.1)
              ]
              | inr (inl side) ↦ elim (list_cases b.buy_qty_by_price) [
                | inl empty ↦ ground arith
                | inr ((p, q), rest, first) ↦
                    let m = w.sells (ground arith) (ground arith) side b p q rest e first in
                    ground (arith, m.0, m.1)
              ]
              | inr (inr side) ↦ ground arith
            ]
          ]
    ],
  )
