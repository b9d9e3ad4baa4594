-- ===== src/Bus/Snapshot/Pick.antt =====
-- The round-robin choice within a queue group: which member each message goes to.
use native.Mathlib.Nat.{add-mod-mod, add-mod_right, mod-lt, mod-eq_of_lt, mod-add-mod, add-zero}
use xqua_go.Prelude.{
  ℕ, zero, suc, ◌+◌, ◌-◌, ◌%◌, ◌^◌, ◌<◌, List, [], ◌∷◌, ◌≡◌, ◌≢◌, refl, sym, arith, ◌∙◌, ap, length,
  get_elem?, false,
}
use xqua_go.Bus.Snapshot.{SubRef, QueueGroup, pick, is_empty}

-- The group after `k` messages.
unfoldable pub after : ℕ → QueueGroup → QueueGroup
after zero g = g
after (suc k) g = after k (pick g).1

subs_is_empty : (g : QueueGroup) → g.subs ≢ [] → is_empty g.subs ≡ false
subs_is_empty g ne = go g.subs ne
  where
    go : (xs : List SubRef) → xs ≢ [] → is_empty xs ≡ false
    go [] h = absurd (h refl)
    go (x ∷ xs) h = refl

-- `2 ^ 64` as a variable, so that nothing counts up to it.
step_below : (n m : ℕ) → n + 1 < m → (n + 1) % m ≡ n + 1
step_below n m h = mod-eq_of_lt h

pick-cursor :
    (g : QueueGroup)
    → g.subs ≢ []
    → g.next + 1 < 2 ^ 64
    → pick g ≡ (get_elem? g.subs (g.next % length g.subs), record g { next = g.next + 1 })
unfolding pick
pick-cursor g ne h = rw (subs_is_empty g ne, step_below g.next (2 ^ 64) h)

after-cursor :
    (k : ℕ) (g : QueueGroup)
    → g.subs ≢ []
    → g.next + k < 2 ^ 64
    → after k g ≡ record g { next = g.next + k }
unfolding after
after-cursor zero g ne h = rw add-zero
after-cursor (suc k) g ne h = rw (pick-cursor g ne (omega arith)) (
    after-cursor k (record g { next = g.next + 1 }) ne (omega arith)
    ∙ ap (λ n. record { subs = g.subs; next = n }) (omega arith))

-- The message that takes the cursor to the member `i`, out of `n` in a row.
turn : ℕ → ℕ → ℕ → ℕ
turn next n i = (i + n - next % n) % n

turn_lem : (next n i : ℕ) → i < n → (turn next n i < n) × ((next + turn next n i) % n ≡ i)
unfolding turn
turn_lem next n i h = (
  mod-lt _ (omega arith),
  add-mod-mod next (i + n - next % n) n
      ∙ sym (mod-add-mod next n (i + n - next % n))
      ∙ ap (λ t. t % n) level
      ∙ add-mod_right i n
      ∙ mod-eq_of_lt h,
)
  where
    level : next % n + (i + n - next % n) ≡ i + n
    level = omega (arith, mod-lt next {m = n} (omega arith))

-- While the 64-bit cursor does not wrap, `n` messages in a row to a group of `n` members reach
-- each of them.
pub pick-round_robin :
    (g : QueueGroup) (i : ℕ)
    → i < length g.subs
    → g.next + length g.subs < 2 ^ 64
    → (k : ℕ) × (k < length g.subs) × ((pick (after k g)).0 ≡ get_elem? g.subs i)
pick-round_robin g i h small =
    (turn g.next (length g.subs) i, (turn_lem g.next (length g.subs) i h).0, taken)
  where
    ne : g.subs ≢ []
    ne e = absurd (omega (arith, ap length e))

    k : ℕ
    k = turn g.next (length g.subs) i

    taken : (pick (after k g)).0 ≡ get_elem? g.subs i
    taken = rw (after-cursor k g ne (omega (arith, turn_lem g.next (length g.subs) i h))) (
        ap (λ p. p.0)
          (pick-cursor (record g { next = g.next + k }) ne
            (omega (arith, turn_lem g.next (length g.subs) i h)))
        ∙ ap (get_elem? g.subs) (turn_lem g.next (length g.subs) i h).1)
