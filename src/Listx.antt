-- ===== src/Listx.antt =====
-- headers/listx.h: circular doubly linked lists of `struct list_head`, at the level of pointers.
-- An address is a number; the memory maps it to the two links of the `list_head` that stands there.
pub mod Chain
pub mod Ring
pub mod ProcQ
use pand_aossh.Prelude.{ℕ, Bool, Option, none, some, ◌==◌, if◌then◌else◌, update}

pub record ListHead : Type 0 where
  pub next : ℕ
  pub prev : ℕ

abbrev pub Links : Type 0
Links = ℕ → ListHead

abbrev pub set_next : (a v : ℕ) → Links → Links
set_next a v m = update m a (record { next = v; prev = (m a).prev })

abbrev pub set_prev : (a v : ℕ) → Links → Links
set_prev a v m = update m a (record { next = (m a).next; prev = v })

unfoldable pub init_list_head : ℕ → Links → Links
init_list_head list m = set_prev list list (set_next list list m)

-- `__list_add`.
unfoldable pub list_add_between : (new prev next : ℕ) → Links → Links
list_add_between new prev next m =
    set_next prev new (set_prev new prev (set_next new next (set_prev next new m)))

unfoldable pub list_add : (new head : ℕ) → Links → Links
list_add new head m = list_add_between new head (m head).next m

unfoldable pub list_add_tail : (new head : ℕ) → Links → Links
list_add_tail new head m = list_add_between new (m head).prev head m

-- `__list_del`.
unfoldable pub list_del_between : (prev next : ℕ) → Links → Links
list_del_between prev next m = set_next prev next (set_prev next prev m)

unfoldable pub list_del : ℕ → Links → Links
unfolding list_del_between
list_del entry m =
    set_prev entry entry (set_next entry entry (list_del_between (m entry).prev (m entry).next m))

unfoldable pub list_is_last : (list head : ℕ) → Links → Bool
list_is_last list head m = (m list).next == head

unfoldable pub list_empty : ℕ → Links → Bool
list_empty head m = (m head).next == head

unfoldable pub list_next : ℕ → Links → Option ℕ
unfolding list_empty
list_next current m = if list_empty current m then none else some (m current).next

unfoldable pub list_prev : ℕ → Links → Option ℕ
unfolding list_empty
list_prev current m = if list_empty current m then none else some (m current).prev
