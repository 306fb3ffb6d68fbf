-- ===== src/Urls/Line.antt =====
-- src/urlparse.c: what one line of the URL file does to the feeds and the tags.
use newsbaoter.Common.{
  ℕ, zero, suc, ◌+◌, ◌<◌, ◌≡◌, refl, ◌∙◌, ap, subst, Bool, true, Option, none, some, List, [], ◌∷◌,
  ◌++◌, Bytes, length, length-append, append_assoc, fun_ext, if◌then◌else◌, arith,
}
use newsbaoter.Common.Run.{ok, Returns}
use newsbaoter.Hash.{Table}
use newsbaoter.Hash.View.{scan, count_live}
use newsbaoter.Hash.Valid.{IsValid, get-scan_lem}
use newsbaoter.Hash.Laws.{set-Writes, Writes}
use newsbaoter.Hash.Refine.{usable, update}
use newsbaoter.Config.Words.{get_line_word}
use newsbaoter.Config.Words.Cut.{
  IsWord, Spaced, AllSpaced, render, get_line_word-last, get_line_word-next,
}
use newsbaoter.Config.Options.Color.{after, length-after}
use newsbaoter.Urls.{Feeds, add_tagged, add_tag, add_tags, new_feed, add_line}

-- the feeds under a tag
abbrev pub feeds_of : Option (List ℕ) → List ℕ
feeds_of none = []
feeds_of (some feeds) = feeds

add_tagged_lem : (feed : ℕ) (tlp : Option (List ℕ)) → add_tagged feed tlp ≡ feed ∷ feeds_of tlp
add_tagged_lem feed none = refl
add_tagged_lem feed (some feeds) = refl

-- the map of the tags after a feed with some tags is added
abbrev pub tagged : ℕ → List Spaced → (Bytes → Option (List ℕ)) → Bytes → Option (List ℕ)
tagged feed [] f = f
tagged feed (s ∷ ss) f = tagged feed ss (update f s.word (some (feed ∷ feeds_of (f s.word))))

module _ (feed : ℕ) (bp : Bytes) (t : Table (List ℕ)) (valid : IsValid t)
    (room : count_live t.tab < 32) where
  add_tag-Writes :
      Returns (add_tag feed bp t) (Writes t bp (some (feed ∷ feeds_of (scan t.tab bp))) true)
  unfolding add_tag
  add_tag-Writes =
      let (t', run, w) =
        set-Writes t valid bp (some (add_tagged feed (scan t.tab bp))) (usable t valid bp room) in
      (
        t',
        rw (get-scan_lem t valid bp, usable t valid bp room) run,
        subst (λ v. Writes t bp v true t') (ap some (add_tagged_lem feed (scan t.tab bp))) w,
      )

-- The table stays valid, reads as `tagged` says, and has a name more for each tag at most.
pub record IsTagged (feed : ℕ) (ss : List Spaced) (t t' : Table (List ℕ)) : Type 0 where
  pub valid : IsValid t'
  pub reads : (m : Bytes) → scan t'.tab m ≡ tagged feed ss (scan t.tab) m
  pub counts : count_live t'.tab < count_live t.tab + length ss + 1

count_written : (a c : ℕ) (b : Bool) → a + (if b then 1 else 0) ≡ c + 1 → a < c + 2
count_written a c b h = ground arith

-- the bytes behind a word that a call of `get_line_word` passes
abbrev gap_of : List Spaced → Bytes
gap_of [] = []
gap_of (s ∷ ss) = 0 ∷ s.more

get_line_word-gap :
    (word : Bytes) (ss : List Spaced) (post : Bytes)
    → IsWord word
    → AllSpaced ss
    → get_line_word (render word ss post)
      ≡ ok (some (record { word = word; gap = gap_of ss; next = after ss post }))
get_line_word-gap word [] post h a = get_line_word-last word post h
get_line_word-gap word (s ∷ ss) post h a = get_line_word-next word s ss post h a

length-gap :
    (word : Bytes) (ss : List Spaced)
    → length word + length (gap_of ss) + length (after ss []) ≡ length (render word ss [])
length-gap word [] = omega (arith, length-append word (0 ∷ []))
length-gap word (s ∷ ss) = omega (
  arith,
  length-append word (s.blank ∷ (s.more ++ render s.word ss [])),
  length-append s.more (render s.word ss []),
)

-- `mem` is what a call has made of some text and of `post` behind it, which it leaves as it is.
abbrev pub IsCut : Bytes → Bytes → Bytes → Type 0
IsCut text post mem = (pre : Bytes) × (mem ≡ pre ++ post) × (length pre ≡ length text)

IsCut-word :
    (word : Bytes) (ss : List Spaced) (post mem : Bytes)
    → IsCut (after ss []) post mem
    → IsCut (render word ss []) post (word ++ (gap_of ss ++ mem))
IsCut-word word ss post mem (pre, e, len) = (
  word ++ (gap_of ss ++ pre),
  rw e (simp append_assoc),
  length-append word (gap_of ss ++ pre)
      ∙ omega (arith, len, length-gap word ss, length-append (gap_of ss) pre),
)

add_tags-after :
    (feed : ℕ) (ss : List Spaced) (post : Bytes) (rounds : ℕ) (t : Table (List ℕ))
    → AllSpaced ss
    → length ss < rounds
    → IsValid t
    → count_live t.tab + length ss < 33
    → Returns
        (add_tags rounds feed (after ss post) t)
        (λ r. IsTagged feed ss t r.0 × IsCut (after ss []) post r.1)
unfolding add_tags get_line_word
add_tags-after feed ss post zero t a e valid room = absurd (omega arith)
add_tags-after feed [] post (suc r) t a e valid room = (
  (t, 0 ∷ post),
  refl,
  (record { valid = valid; reads = λ m. refl; counts = omega arith }, (0 ∷ [], refl, refl)),
)
add_tags-after feed (s ∷ ss) post (suc r) t a e valid room =
    let (t1, run, w) = add_tag-Writes feed s.word t valid (omega (arith, room)) in
    let fewer : count_live t1.tab < count_live t.tab + 2 = count_written _ _ _ w.counts in
    let line = get_line_word-gap s.word ss post a.2 a.3 in
    let ((t2, mem), run2, (i, cut)) =
      add_tags-after feed ss post r t1 a.3 (omega arith) w.valid (omega (arith, room, fewer)) in
    (
      (t2, s.word ++ (gap_of ss ++ mem)),
      rw (line, run, run2),
      (
        record {
          valid = i.valid;
          reads = λ m. i.reads m ∙ ap (λ f. tagged feed ss f m) (fun_ext w.reads);
          counts = omega (arith, i.counts, fewer);
        },
        IsCut-word s.word ss post mem cut,
      ),
    )

module _ (feeds : Feeds) (url : Bytes) (ss : List Spaced) (post : Bytes) where
  -- `feeds'` has the new feed in front, and the tags with it.
  pub record IsAdded (feeds' : Feeds) : Type 0 where
    pub urls : feeds'.urls ≡ new_feed url ∷ feeds.urls
    pub tags : IsTagged (length feeds.urls) ss feeds.tags feeds'.tags

  -- A line of a URL and tags, on a valid table with room for as many names as there are tags: the
  -- code comes back without a break, the new feed stands in front of the others, and every tag of the
  -- line has it in front of its list, once for each time that the line names the tag; the other tags
  -- keep theirs, and the table is valid. What follows the line in memory stays as it is.
  pub add_line-render :
      IsWord url
      → AllSpaced ss
      → IsValid feeds.tags
      → count_live feeds.tags.tab + length ss < 33
      → (feeds' : Feeds) × (buf : Bytes) × (add_line (render url ss post) feeds
          ≡ ok (some (feeds', buf)))
        × IsAdded feeds'
        × IsCut (render url ss []) post buf
  unfolding add_line
  add_line-render h a valid room =
      let line = get_line_word-gap url ss post h a in
      let ((t, mem), run, (i, cut)) =
        add_tags-after (length feeds.urls) ss post (length (after ss post)) feeds.tags a
          (length-after ss post a) valid room in
      (
        record { urls = new_feed url ∷ feeds.urls; tags = t },
        url ++ (gap_of ss ++ mem),
        rw (line, run),
        record { urls = refl; tags = i },
        IsCut-word url ss post mem cut,
      )
