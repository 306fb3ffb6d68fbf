-- ===== src/Urls.antt =====
-- src/urlparse.c and src/list.h: the feeds and tags of the URL file. The list `urls` has the feed
-- read last at its front. A `taglist` is the list of the feeds that its nodes point to, each named by
-- the number of feeds read before it. A list under a tag is NULL, `none`, where the tag is new.
pub mod Line
pub mod Whole
mod Tests
use newsbaoter.Common.{
  ℕ, zero, suc, ◌+◌, ◌≡◌, Bool, true, false, Option, none, some, List, [], ◌∷◌, ◌++◌, Bytes, length,
  if◌then◌else◌,
}
use newsbaoter.Common.Int.{ℤ, pos, negsuc}
use newsbaoter.Common.Run.{Run, ok, fault, diverges, ◌>>=◌}
use newsbaoter.Hash.{Table, init_table, get_hash_var, set_hash_var}
use newsbaoter.Fetch.{UrlItem}
use newsbaoter.Config.Reader.{ConfRead, Source, new_conf_read, read_config_line}
use newsbaoter.Config.Words.{Word, get_line_word}

-- The lists of `urlparse` and the tag table.
pub record Feeds : Type 0 where
  pub urls : List UrlItem
  pub tags : Table (List ℕ)

-- the list after `LIST_ADD`, or the first node
abbrev pub add_tagged : ℕ → Option (List ℕ) → List ℕ
add_tagged feed none = feed ∷ []
add_tagged feed (some tlp) = feed ∷ tlp

unfoldable pub add_tag : ℕ → Bytes → Table (List ℕ) → Run (Table (List ℕ))
add_tag feed bp t =
    get_hash_var (some bp) t >>= λ tlp. set_hash_var bp (some (add_tagged feed tlp)) t

-- The inner loop: the table and the memory after it.
unfoldable pub add_tags : ℕ → ℕ → Bytes → Table (List ℕ) → Run (Table (List ℕ) × Bytes)
unfolding get_line_word add_tag
add_tags zero feed next t = fault diverges
add_tags (suc rounds) feed next t = get_line_word next >>= λ bp. elim bp [
  | none ↦ ok (t, next)
  | some w ↦ add_tag feed w.word t >>= λ t'.
      add_tags rounds feed w.next t' >>= λ r. ok (r.0, w.word ++ (w.gap ++ r.1))
]

abbrev pub new_feed : Bytes → UrlItem
new_feed url = record { url = url; has_doc = false; n_httperr = negsuc 0 }

-- The body of the outer loop, on the memory of the line: `none` for its `break`.
unfoldable pub add_line : Bytes → Feeds → Run (Option (Feeds × Bytes))
unfolding get_line_word add_tags
add_line buf feeds = get_line_word buf >>= λ bp. elim bp [
  | none ↦ ok none
  | some w ↦ add_tags (length w.next) (length feeds.urls) w.next feeds.tags >>= λ r.
      ok (
        some (record { urls = new_feed w.word ∷ feeds.urls; tags = r.0 }, w.word ++ (w.gap ++ r.1)))
]

module _ (source : Source) (junk : ℕ → ℕ) where
  open source use {State}

  -- the outer loop, with the rounds of each call that reads a line
  unfoldable pub read_feeds : ℕ → ℕ → State → ConfRead → Feeds → Run Feeds
  unfolding add_line
  read_feeds zero reads s c feeds = fault diverges
  read_feeds (suc rounds) reads s c feeds = read_config_line source junk reads s c >>= λ r.
      elim r.2 [
        | false ↦ ok feeds
        | true ↦ add_line (r.1).buf feeds >>= λ l. elim l [
          | none ↦ ok feeds
          | some (feeds', buf) ↦ read_feeds rounds reads r.0 (record r.1 { buf = buf }) feeds'
        ]
      ]

  -- `urlparse`, on the file that is open
  unfoldable pub urlparse : ℕ → ℕ → State → Run Feeds
  unfolding read_feeds
  urlparse rounds reads s =
      read_feeds rounds reads s new_conf_read (record { urls = []; tags = init_table })
