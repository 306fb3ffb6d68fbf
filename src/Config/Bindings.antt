-- ===== src/Config/Bindings.antt =====
-- src/config.c, `config_bind_key`: the options that bind and unbind keys, over the key table.
-- mbtowc(3) is an argument; it gives the key, or `none` where it returns -1.
use newsbaoter.Common.{
  ℕ, ◌+◌, ◌<◌, ◌≡◌, ◌∙◌, ap, refl, Bool, false, Option, none, some, List, ◌∷◌, Bytes, if◌then◌else◌,
}
use newsbaoter.Common.Int.{ℤ}
use newsbaoter.Common.Run.{Run, ok, Returns, ◌>>=◌}
use newsbaoter.Hash.{Table}
use newsbaoter.Keys.{Handler, Names, bind_key, unbind_key, find_handler}
use newsbaoter.Keys.Bind.{Binds, bound, bind_key-Binds}
use newsbaoter.Config.Words.{get_line_word}
use newsbaoter.Config.Words.Cut.{IsWord, Spaced, AllSpaced, render}
use newsbaoter.Config.Options.Color.{get_line_word-render}

-- what follows the search for the handler
abbrev pub bind_found : ℤ → Option Handler → Table Handler → Run (Option (Table Handler))
bind_found key none t = ok none
bind_found key (some h) t = bind_key key (some h) t >>= λ t'. ok (some t')

module _ (mbtowc : Bytes → Option ℤ) where
  -- `unbinds` is `f==0`; the result is the table after the call, or `none` where 1 is returned, and
  -- the table is as before.
  unfoldable pub config_bind_key :
      Bool → Names → Bytes → Table Handler → Run (Option (Table Handler))
  config_bind_key unbinds names next t = get_line_word next >>= λ v. elim v [
    | none ↦ ok none
    | some w ↦ elim (mbtowc w.word) [
      | none ↦ ok none
      | some key ↦
          if unbinds
          then (unbind_key key t >>= λ t'. ok (some t'))
          else get_line_word w.next >>= λ v'. elim v' [
            | none ↦ ok none
            | some w' ↦ bind_found key (find_handler names w'.word) t
          ]
    ]
  ]

  module _ (names : Names) (t : Table Handler) (f : ℤ → Option Handler) (used : ℕ)
      (binds : Binds t f used) (room : used < 31) (key : Bytes) (c : ℤ)
      (is_key : mbtowc key ≡ some c) (is_word : IsWord key) where
    -- Where a table binds keys and fewer than 31 of its slots are taken: a line of a key and the name
    -- of a handler that is set binds the key to that handler, and leaves the other keys as they are.
    pub config_bind_key-render :
        (name : Spaced) (ss : List Spaced) (post : Bytes) (h : Handler)
        → AllSpaced (name ∷ ss)
        → find_handler names name.word ≡ some h
        → Returns
            (config_bind_key false names (render key (name ∷ ss) post) t)
            (λ r. (t' : Table Handler) × (r ≡ some t') × Binds t' (bound f c (some h)) (used + 1))
    unfolding config_bind_key
    config_bind_key-render name ss post h spaced found =
        let (gap, cut) = get_line_word-render key (name ∷ ss) post is_word spaced in
        let (gap', cut') = get_line_word-render name.word ss post spaced.2 spaced.3 in
        let (t', run, b) = bind_key-Binds t f used binds room c (some h) in
        (some t', rw (cut, is_key, cut') (ap (λ o. bind_found c o t) found ∙ rw run), (t', refl, b))
