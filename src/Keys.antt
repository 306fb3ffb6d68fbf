-- ===== src/Keys.antt =====
-- src/ui/keys.c: the key bindings, over the key table of src/hash.c. A handler is its name; a call
-- of it is in src/ui/view.c. A key is a C `int`.
pub mod Hex
pub mod Bind
pub mod Help
mod Tests
use newsbaoter.Common.{
  ℕ, zero, suc, ◌+◌, ◌-◌, ◌*◌, ◌/◌, ◌%◌, ◌^◌, ◌≡◌, Bool, true, false, Option, none, some, List, [],
  ◌∷◌, ◌++◌, Bytes, codes, str_eq, ltb, if◌then◌else◌,
}
use newsbaoter.Common.Int.{ℤ, pos, negsuc}
use newsbaoter.Common.Run.{Run, ok, fault, ◌>>=◌}
use newsbaoter.Hash.{Table, init_table, set_hash_var, unset_hash_var, get_hash_var}

pub data Handler : Type 0 where
  exit next prev select download high_item mid_item low_item : Handler
  refresh_all catchup_feed catchup_all toggle_read redraw_screen print_key_pairs : Handler

-- an `int` where `unsigned int` is expected
abbrev pub to_u32 : ℤ → ℕ
to_u32 (pos n) = n % 2 ^ 32
to_u32 (negsuc n) = 2 ^ 32 - 1 - n % 2 ^ 32

abbrev pub hex_digit : ℕ → ℕ
hex_digit d = if ltb d 10 then b'0' + d else b'a' + (d - 10)

-- the hexadecimal digits of a number, at most as many as `places`
unfoldable pub hex : ℕ → ℕ → Bytes
hex zero n = []
hex (suc places) n =
    let front = hex places (n / 16) in
    if ltb n 16 then hex_digit n ∷ [] else front ++ hex_digit (n % 16) ∷ []

-- `snprintf(s,ssize,"%x",c)`
unfoldable pub key_name : ℤ → Bytes
unfolding hex
key_name c = hex 8 (to_u32 c)

unfoldable pub bind_key : ℤ → Option Handler → Table Handler → Run (Table Handler)
bind_key c handler t = set_hash_var (key_name c) handler t

unfoldable pub unbind_key : ℤ → Table Handler → Run (Table Handler)
unbind_key c t = unset_hash_var (key_name c) t

-- The handler that is called; `none` for KH_RET_NO_HANDLER.
unfoldable pub process_key : ℤ → Table Handler → Run (Option Handler)
process_key c t = get_hash_var (some (key_name c)) t

abbrev pub default_keys : List (ℤ × Handler)
default_keys =
    (pos b'q', exit)
    ∷ (pos b'j', next)
    ∷ (pos b'k', prev)
    ∷ (pos b'L', low_item)
    ∷ (pos b'M', mid_item)
    ∷ (pos b'H', high_item)
    ∷ (pos b'o', select)
    ∷ (pos b'D', download)
    ∷ (pos b'R', refresh_all)
    ∷ (pos b'A', catchup_feed)
    ∷ (pos b'C', catchup_all)
    ∷ (pos b'N', toggle_read)
    ∷ (pos b'W', redraw_screen)
    ∷ (pos b'?', print_key_pairs)
    ∷ []

-- the loop of `bind_defaults`
unfoldable pub bind_all : List (ℤ × Handler) → Table Handler → Run (Table Handler)
bind_all [] t = ok t
bind_all ((c, h) ∷ keys) t = bind_key c (some h) t >>= bind_all keys

unfoldable pub bind_defaults : Run (Table Handler)
unfolding bind_all
bind_defaults = bind_all default_keys init_table

-- `handler_names`, whose handlers may be unset
abbrev pub Names : Type 0
Names = List (Bytes × Option Handler)

unfoldable pub find_handler : Names → Bytes → Option Handler
find_handler [] s = none
find_handler ((n, h) ∷ names) s = let rest = find_handler names s in if str_eq n s then h else rest

unfoldable pub unset_handler : Names → Bytes → Names
unset_handler [] s = []
unset_handler ((n, h) ∷ names) s = (n, (if str_eq n s then none else h)) ∷ unset_handler names s

-- `handler_names` before any is unset
abbrev pub handler_names : Names
handler_names =
    (codes "exit", some exit)
    ∷ (codes "next", some next)
    ∷ (codes "prev", some prev)
    ∷ (codes "select", some select)
    ∷ (codes "download", some download)
    ∷ (codes "high-item", some high_item)
    ∷ (codes "mid-item", some mid_item)
    ∷ (codes "low-item", some low_item)
    ∷ (codes "reload-all", some refresh_all)
    ∷ (codes "mark-feed-read", some catchup_feed)
    ∷ (codes "mark-all-feeds-read", some catchup_all)
    ∷ (codes "toggle-article-read", some toggle_read)
    ∷ (codes "redraw-screen", some redraw_screen)
    ∷ (codes "help", some print_key_pairs)
    ∷ []
