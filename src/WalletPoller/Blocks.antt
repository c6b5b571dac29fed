-- ===== src/WalletPoller/Blocks.antt =====
-- The blocks that the poller of MoneroWalletRpc.ts announces.
use mathlib.Core.List.{append_assoc, append-nil}
use qwertycoin_ts.Common.{
  ℕ, zero, suc, ◌+◌, ◌-◌, ◌≤◌, ◌≡◌, ◌≢◌, refl, sym, ap, ◌∙◌, subst, Bool, true, false, List, [],
  ◌∷◌, ◌++◌, Option, none, some, arith, if◌then◌else◌,
}
use qwertycoin_ts.Daemon.Blocks.{heights_from}
use qwertycoin_ts.WalletPoller.{
  Poller, Replies, WalletTx, announce_blocks, take_snapshot, compare_txs, compare_to_previous, poll,
}
use qwertycoin_ts.WalletPoller.Announcements.{
  blocks, blocks-append, blocks-map_new_block, Keeps, unchanged, compare_txs-Keeps,
}

-- The height after a poll of a poller that has its snapshot.
abbrev height_of : Option ℕ → ℕ → ℕ
height_of none h = h
height_of (some k) h = k

abbrev pub next_height : ℕ → Replies → ℕ
next_height h r = if r.is_closed then h else height_of r.height h

-- What a poll does to the blocks, from a height to the next.
record IsPolled (p q : Poller) (next : ℕ) : Type 0 where
  height : q.prev_height ≡ next
  announced : blocks q.log ≡ blocks p.log ++ heights_from (next - p.prev_height) p.prev_height
  snapshot : (q.prev_balances ≡ none) → p.prev_balances ≡ none

no_heights : (n : ℕ) → heights_from (n - n) n ≡ []
unfolding heights_from
no_heights n = let none_left : n - n ≡ 0 = omega arith in rw none_left refl

Keeps-IsPolled : (p q : Poller) → Keeps p q → IsPolled p q p.prev_height
Keeps-IsPolled p q k = record {
  height = k.height;
  announced = k.announced ∙ sym (rw (no_heights p.prev_height) (append-nil (blocks p.log)));
  snapshot = k.snapshot;
}

announce_blocks-IsPolled : (p : Poller) (next : ℕ) → IsPolled p (announce_blocks p next) next
unfolding announce_blocks
announce_blocks-IsPolled p next = record {
  height = refl;
  announced =
      blocks-append p.log _
      ∙ ap (◌++◌ (blocks p.log))
          (blocks-map_new_block (heights_from (next - p.prev_height) p.prev_height));
  snapshot = λ e. e;
}

IsPolled-Keeps : (p q r : Poller) (next : ℕ) → IsPolled p q next → Keeps q r → IsPolled p r next
IsPolled-Keeps p q r next i k = record {
  height = k.height ∙ i.height;
  announced = k.announced ∙ i.announced;
  snapshot = λ e. i.snapshot (k.snapshot e);
}

compare_to_previous-IsPolled :
    (p : Poller) (r : Replies) (prev : ℕ × ℕ)
    → IsPolled p (compare_to_previous p r prev) (height_of r.height p.prev_height)
unfolding compare_to_previous
compare_to_previous-IsPolled p r prev = compared r.height r.locked_txs
  where
    compared :
        (h : Option ℕ) (txs : Option (List WalletTx))
        → IsPolled p
            (elim h [
              | none ↦ p
              | some height ↦ elim txs [
                | none ↦ announce_blocks p height
                | some txs ↦ compare_txs (announce_blocks p height) r prev txs
              ]
            ])
            (height_of h p.prev_height)
    compared none txs = Keeps-IsPolled p p (unchanged p)
    compared (some height) none = announce_blocks-IsPolled p height
    compared (some height) (some txs) =
        IsPolled-Keeps p (announce_blocks p height) _ height (announce_blocks-IsPolled p height)
          (compare_txs-Keeps (announce_blocks p height) r prev txs)

-- A poller that has its snapshot.
abbrev pub HasSnapshot : Poller → Type 0
HasSnapshot p = p.prev_balances ≢ none

poll-IsPolled :
    (p : Poller) (r : Replies) → HasSnapshot p → IsPolled p (poll p r) (next_height p.prev_height r)
unfolding poll
poll-IsPolled p r s = polled r.is_closed p.prev_balances s
  where
    polled :
        (closed : Bool) (balances : Option (ℕ × ℕ))
        → balances ≢ none
        → IsPolled p
            (if closed then p else elim balances [
              | none ↦ take_snapshot p r
              | some prev ↦ compare_to_previous p r prev
            ])
            (if closed then p.prev_height else height_of r.height p.prev_height)
    polled true balances s = Keeps-IsPolled p p (unchanged p)
    polled false none s = absurd (s refl)
    polled false (some prev) s = compare_to_previous-IsPolled p r prev

unfoldable pub run : Poller → List Replies → Poller
run p [] = p
run p (r ∷ rs) = run (poll p r) rs

-- The height never falls from one poll to the next.
abbrev pub IsRising : ℕ → List Replies → Type 0
IsRising h [] = Unit
IsRising h (r ∷ rs) = (h ≤ next_height h r) × IsRising (next_height h r) rs

heights_from-append :
    (j k n : ℕ) → heights_from (j + k) n ≡ heights_from j n ++ heights_from k (n + j)
unfolding heights_from
heights_from-append zero k n =
    let none_left : 0 + k ≡ k = omega arith in
    let here : n + 0 ≡ n = omega arith in rw (none_left, here) refl
heights_from-append (suc j) k n =
    let rest : suc j + k ≡ suc (j + k) = omega arith in
    let next : n + suc j ≡ suc n + j = omega arith in
    rw (rest, next) (ap (◌∷◌ n) (heights_from-append j k (suc n)))

heights_joined :
    (a b c : ℕ)
    → a ≤ b
    → b ≤ c
    → heights_from (b - a) a ++ heights_from (c - b) b ≡ heights_from (c - a) a
heights_joined a b c h k =
    let split : c - a ≡ (b - a) + (c - b) = omega arith in
    let middle : a + (b - a) ≡ b = omega arith in
    sym (
      ap (λ n. heights_from n a) split
      ∙ heights_from-append (b - a) (c - b) a
      ∙ ap (λ n. heights_from (b - a) a ++ heights_from (c - b) n) middle)

-- In any sequence of polls of a poller that has its snapshot, in which the height never falls, each
-- block from the first height up to the last, without it, is announced once and in order, whatever
-- calls of the wallet throw.
pub blocks-run :
    (p : Poller) (rs : List Replies)
    → HasSnapshot p
    → IsRising p.prev_height rs
    → (p.prev_height ≤ (run p rs).prev_height)
      × (blocks (run p rs).log
          ≡ blocks p.log ++ heights_from ((run p rs).prev_height - p.prev_height) p.prev_height)
unfolding run
blocks-run p [] s h = (omega arith, sym (rw (no_heights p.prev_height) (append-nil (blocks p.log))))
blocks-run p (r ∷ rs) s h =
    let q = poll p r in
    let i = poll-IsPolled p r s in
    let (le, later) =
      blocks-run q rs (λ e. s (i.snapshot e)) (subst (λ n. IsRising n rs) (sym i.height) h.1) in
    let first : p.prev_height ≤ q.prev_height = subst (λ n. p.prev_height ≤ n) (sym i.height) h.0 in
    let announced : blocks q.log
        ≡ blocks p.log ++ heights_from (q.prev_height - p.prev_height) p.prev_height =
      subst (λ n. blocks q.log ≡ blocks p.log ++ heights_from (n - p.prev_height) p.prev_height)
        (sym i.height) i.announced in
    let last = (run q rs).prev_height in
    (
      omega (arith, first, le),
      later
          ∙ ap (λ b. b ++ heights_from (last - q.prev_height) q.prev_height) announced
          ∙ append_assoc (blocks p.log) _ _
          ∙ ap (◌++◌ (blocks p.log)) (heights_joined p.prev_height q.prev_height last first le),
    )
