-- ===== src/Ring.antt =====
-- The circular lists of libtnX/tnX_record.c and of tn3270d/tn3270_list.c and tn3270_list.h, on a
-- store of links. A node is its address; the rest of a record is in Record.
pub mod Chain
pub mod Circle
pub mod Removal
pub mod Rotation
pub mod Destruction
pub mod Kernel
use linux_sna.Base.{
  ℕ, zero, suc, List, [], ◌∷◌, Option, none, some, Bool, true, false, ◌==◌, if◌then◌else◌, Outcome,
  ok, out_of_fuel, pure,
}

-- The fields `next` and `prev` of each node, 0 for NULL
pub record Links : Type 0 where
  pub next : ℕ → ℕ
  pub prev : ℕ → ℕ

abbrev pub store : (ℕ → ℕ) → ℕ → ℕ → ℕ → ℕ
store f p v q = if p == q then v else f q

-- `p->next = v` and `p->prev = v`
abbrev pub set_next : ℕ → ℕ → Links → Links
set_next p v h = record h { next = store h.next p v }

abbrev pub set_prev : ℕ → ℕ → Links → Links
set_prev p v h = record h { prev = store h.prev p v }

abbrev add_between : ℕ → ℕ → Links → Links
add_between list r h0 =
    let h1 = set_next r list h0 in
    let h2 = set_prev r (h1.prev list) h1 in
    let h3 = set_next (h2.prev r) r h2 in set_prev (h3.next r) r h3

-- `tnX_record_list_add`, with the head of the list before and after
unfoldable pub record_list_add : Option ℕ → ℕ → Links → ℕ × Links
record_list_add none r h = (r, set_next r r (set_prev r r h))
record_list_add (some list) r h = (list, add_between list r h)

abbrev pub unlink : ℕ → Links → Links
unlink r h0 =
    let h1 = set_prev (h0.next r) (h0.prev r) h0 in
    let h2 = set_next (h1.prev r) (h1.next r) h1 in set_next r 0 (set_prev r 0 h2)

-- `tnX_record_list_remove`
unfoldable pub record_list_remove : Option ℕ → ℕ → Links → Option ℕ × Links
record_list_remove none r h = (none, h)
record_list_remove (some list) r h =
    if h.next list == list
    then (none, set_prev r 0 (set_next r 0 h))
    else (some (if list == r then h.next list else list), unlink r h)

-- The order in which `tnX_record_list_destroy` destroys the records, from `iter` on
unfoldable pub destroy_from : ℕ → Links → ℕ → ℕ → Option (List ℕ)
destroy_from list h zero iter = none
destroy_from list h (suc fuel) iter =
    let rest = destroy_from list h fuel (h.next iter) in
    if h.next iter == list then some (iter ∷ []) else consed iter rest
  where
    consed : ℕ → Option (List ℕ) → Option (List ℕ)
    consed x none = none
    consed x (some xs) = some (x ∷ xs)

-- `list_init_head`
abbrev pub list_init_head : ℕ → Links → Links
list_init_head head h = set_prev head head (set_next head head h)

-- `list_add`
abbrev pub list_add : ℕ → ℕ → ℕ → Links → Links
list_add new before after h =
    set_next before new (set_prev new before (set_next new after (set_prev after new h)))

-- `list_add_tail`
unfoldable pub list_add_tail : ℕ → ℕ → Links → Links
list_add_tail new head h = list_add new (h.prev head) head h

-- `list_del`, with `__list_del`
unfoldable pub list_del : ℕ → Links → Links
list_del entry h = set_next (h.prev entry) (h.next entry) (set_prev (h.next entry) (h.prev entry) h)
