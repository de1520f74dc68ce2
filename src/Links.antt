-- ===== src/Links.antt =====
-- The intrusive lists of src/utils/list.h: the two pointers of every node, by the node's address.
pub mod Ring
pub mod Unlink
use nomalloc.Prelude.{
  ℕ, zero, suc, ◌+◌, Bool, true, false, Option, none, some, List, [], ◌∷◌, ◌==◌, if◌then◌else◌,
}

pub record Links : Type 0 where
  pub prev : ℕ → ℕ
  pub next : ℕ → ℕ

-- A pointer at `a` becomes `v`.
unfoldable pub write_at : ℕ → ℕ → (ℕ → ℕ) → ℕ → ℕ
write_at a v f k = if k == a then v else f k

unfoldable pub set_prev : ℕ → ℕ → Links → Links
set_prev a v s = record s { prev = write_at a v s.prev }

unfoldable pub set_next : ℕ → ℕ → Links → Links
set_next a v s = record s { next = write_at a v s.next }

-- `INIT_LIST_HEAD`
unfoldable pub init_list_head : ℕ → Links → Links
init_list_head a s = set_next a a (set_prev a a s)

unfoldable pub list_add : ℕ → ℕ → Links → Links
list_add new_node head s =
    let s1 = set_prev (s.next head) new_node s in
    let s2 = set_next new_node (s1.next head) s1 in
    let s3 = set_prev new_node head s2 in set_next head new_node s3

unfoldable pub list_add_tail : ℕ → ℕ → Links → Links
list_add_tail new_node head s =
    let s1 = set_next (s.prev head) new_node s in
    let s2 = set_prev new_node (s1.prev head) s1 in
    let s3 = set_next new_node head s2 in set_prev head new_node s3

unfoldable pub list_del : ℕ → Links → Links
list_del entry s =
    let s1 = set_next (s.prev entry) (s.next entry) s in
    let s2 = set_prev (s1.next entry) (s1.prev entry) s1 in set_next entry 0 (set_prev entry 0 s2)

unfoldable pub list_del_init : ℕ → Links → Links
list_del_init entry s = init_list_head entry (list_del entry s)

unfoldable pub list_move : ℕ → ℕ → Links → Links
list_move entry head s = list_add entry head (list_del entry s)

unfoldable pub list_move_tail : ℕ → ℕ → Links → Links
list_move_tail entry head s = list_add_tail entry head (list_del entry s)

unfoldable pub list_empty : ℕ → Links → Bool
list_empty head s = s.next head == head

unfoldable pub list_is_first : ℕ → ℕ → Links → Bool
list_is_first entry head s = s.prev entry == head

unfoldable pub list_is_last : ℕ → ℕ → Links → Bool
list_is_last entry head s = s.next entry == head

-- The loop of `list_length` at `pos`; `none` if the fuel runs out.
unfoldable pub length_loop : ℕ → ℕ → ℕ → ℕ → Links → Option ℕ
length_loop zero pos head count s = none
length_loop (suc fuel) pos head count s =
    let rest = length_loop fuel (s.next pos) head (count + 1) s in
    if pos == head then some count else rest

unfoldable pub list_length : ℕ → ℕ → Links → Option ℕ
list_length fuel head s = length_loop fuel (s.next head) head 0 s
