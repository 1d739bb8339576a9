-- ===== src/Jukebox/Order.antt =====
-- The order of up-next: every queued row once, and on top what was moved there.
use mathlib.Core.List.{Perm, perm_middle}
use mathlib.Core.List.Perm
use blt.Base.{ℕ, ◌≡◌, some, List, [], ◌∷◌, ◌++◌, inl, inr, filter, Bool-cases, Option-cases, map}
use blt.Base.Sort.{sort, sort-perm}
use blt.Queue.{QueueItem, OrderMode, ids, order_up_next}
use blt.Queue.Fairness.{order_up_next-fair, order_up_next-votes}
use blt.Jukebox.{
  Item, Db, Jukebox, is_queued, overridden, unranked, up_next_order, pair_le, vote_counts,
}

-- The ids of the waiting rows, in table order.
unfoldable pub queued_ids : List Item → List ℕ
queued_ids items = map (λ it. it.id) (filter (λ it. is_queued it.state) items)

-- In either mode the core library's order ends and rearranges the items.
pub order_up_next-perm :
    (items : List QueueItem) (mode : OrderMode)
    → (l : List QueueItem) × (order_up_next items mode ≡ some (ids l)) × Perm l items
order_up_next-perm items OrderMode.fair = let w = order_up_next-fair items in (w.0, w.1, w.2)
order_up_next-perm items OrderMode.votes = let w = order_up_next-votes items in (w.0, w.1, w.2)

abbrev ranked : List Item → List ℕ
ranked items = map (λ p. p.1) (overridden items)

parts-perm :
    (votes : ℕ → ℕ) (items : List Item)
    → Perm (ranked items ++ ids (unranked votes items)) (queued_ids items)
unfolding overridden unranked queued_ids
parts-perm votes [] = Perm.nil
parts-perm votes (it ∷ items) = elim (Bool-cases (is_queued it.state)) [
  | inr e ↦ rw e (parts-perm votes items)
  | inl e ↦ elim (Option-cases it.sort_override) [
    | inl o ↦
        rw (e, o)
          (Perm.trans (perm_middle (ranked items) (ids (unranked votes items)))
            (Perm.cons it.id (parts-perm votes items)))
    | inr (rank, o) ↦ rw (e, o) (Perm.cons it.id (parts-perm votes items))
  ]
]

-- The up-next order always exists and holds the id of every queued row exactly once.
pub up_next_order-perm :
    (jb : Jukebox) (db : Db)
    → (order : List ℕ) × (up_next_order jb db ≡ some order) × Perm order (queued_ids db.items)
unfolding up_next_order
up_next_order-perm jb db =
    let votes = vote_counts db in
    let (l, e, p) = order_up_next-perm (unranked votes db.items) jb.mode in
    (
      map (λ q. q.1) (sort pair_le (overridden db.items)) ++ ids l,
      rw e,
      Perm.trans
          (Perm.append (Perm.map (λ q. q.1) (sort-perm pair_le (overridden db.items)))
            (Perm.map (λ q. q.id) p))
          (parts-perm votes db.items),
    )
