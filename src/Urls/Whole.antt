-- ===== src/Urls/Whole.antt =====
-- src/urlparse.c: a URL file of lines, read to its end.
use newsbaoter.Common.{
  ℕ, zero, suc, ◌+◌, ◌<◌, ◌≡◌, ◌≢◌, refl, sym, ap, subst, fun_ext, ◌∙◌, inl, Bool, true, false,
  Option, none, some, List, [], ◌∷◌, ◌++◌, append-empty, Bytes, length, length-append, arith,
}
use newsbaoter.Common.Run.{Run, ok, Returns, ◌>>=◌}
use newsbaoter.Hash.{init_table}
use newsbaoter.Hash.View.{scan, count_live}
use newsbaoter.Hash.Valid.{IsValid}
use newsbaoter.Hash.Refine.{init-IsValid, init-empty}
use newsbaoter.Fetch.{UrlItem}
use newsbaoter.Config.Reader.{Source, ConfRead, newline, new_conf_read, allocate, read_config_line}
use newsbaoter.Config.Reader.Scan.{Holds, IsLine, GivesLine}
use newsbaoter.Config.Reader.Stream.{first_line, first_line-append}
use newsbaoter.Config.Reader.Store.{allocate-new, allocate-Holds}
use newsbaoter.Config.Reader.Fill.{AtEnd, read_config_line-first_line}
use newsbaoter.Config.Reader.Last.{read_config_line-nothing}
use newsbaoter.Config.Reader.Given.{behind, GivesLine-buf, cut-Holds}
use newsbaoter.Config.Words.Cut.{IsWord, Spaced, AllSpaced, render}
use newsbaoter.Config.File.Lines.{line_text}
use newsbaoter.Config.File.Meaning.{render-line_text, line_text_pos}
use newsbaoter.Urls.{Feeds, new_feed, add_line, read_feeds, urlparse}
use newsbaoter.Urls.Line.{tagged, IsAdded, IsCut, add_line-render}

-- a URL and its tags
pub record FeedLine : Type 0 where
  pub url : Bytes
  pub tags : List Spaced

abbrev pub AllWritten : List FeedLine → Type 0
AllWritten [] = Unit
AllWritten (l ∷ ls) =
    (IsLine (line_text l.url l.tags) × IsWord l.url × AllSpaced l.tags) × AllWritten ls

abbrev pub file_of : List FeedLine → Bytes
file_of [] = []
file_of (l ∷ ls) = line_text l.url l.tags ++ newline ∷ file_of ls

abbrev pub count_tags : List FeedLine → ℕ
count_tags [] = 0
count_tags (l ∷ ls) = length l.tags + count_tags ls

-- the list of feeds after some lines, and the feeds of each tag, from the number of the first feed on
abbrev pub all_urls : List FeedLine → List UrlItem → List UrlItem
all_urls [] urls = urls
all_urls (l ∷ ls) urls = all_urls ls (new_feed l.url ∷ urls)

abbrev pub all_tags : List FeedLine → ℕ → (Bytes → Option (List ℕ)) → Bytes → Option (List ℕ)
all_tags [] feed f = f
all_tags (l ∷ ls) feed f = all_tags ls (feed + 1) (tagged feed l.tags f)

-- the feeds after some lines
pub record HasFeeds (ls : List FeedLine) (feeds feeds' : Feeds) : Type 0 where
  pub urls : feeds'.urls ≡ all_urls ls feeds.urls
  pub valid : IsValid feeds'.tags
  pub reads :
      (m : Bytes) → scan feeds'.tags.tab m ≡ all_tags ls (length feeds.urls) (scan feeds.tags.tab) m

HasFeeds-cons :
    (l : FeedLine) (ls : List FeedLine) (post : Bytes) (feeds feeds1 feeds2 : Feeds)
    → IsAdded feeds l.url l.tags post feeds1
    → HasFeeds ls feeds1 feeds2
    → HasFeeds (l ∷ ls) feeds feeds2
HasFeeds-cons l ls post feeds feeds1 feeds2 i h = record {
  urls = h.urls ∙ ap (all_urls ls) i.urls;
  valid = h.valid;
  reads = λ m.
      h.reads m
      ∙ ap (λ n. all_tags ls n (scan feeds1.tags.tab) m) (ap length i.urls ∙ omega arith)
      ∙ ap (λ f. all_tags ls (length feeds.urls + 1) f m) (fun_ext i.tags.reads);
}

module _ (source : Source) (junk : ℕ → ℕ) where
  open source use {State, read, remaining}

  -- the body of the loop with the later rounds
  abbrev after_line : ℕ → ℕ → State → ConfRead → Feeds → Option (Feeds × Bytes) → Run Feeds
  after_line rounds reads s c feeds l = elim l [
    | none ↦ ok feeds
    | some (feeds', buf) ↦ read_feeds source junk rounds reads s (record c { buf = buf }) feeds'
  ]

  abbrev after_read : ℕ → ℕ → Feeds → State × ConfRead × Bool → Run Feeds
  after_read rounds reads feeds r = elim r.2 [
    | false ↦ ok feeds
    | true ↦ add_line (r.1).buf feeds >>= after_line rounds reads r.0 r.1 feeds
  ]

  read_feeds_step :
      (rounds reads : ℕ) (s : State) (c : ConfRead) (feeds : Feeds)
      → read_feeds source junk (suc rounds) reads s c feeds
        ≡ (read_config_line source junk reads s c >>= after_read rounds reads feeds)
  unfolding read_feeds
  read_feeds_step rounds reads s c feeds = refl

  module _ (l : FeedLine) (unread : Bytes) (c : ConfRead)
      (gives : GivesLine c (line_text l.url l.tags) unread) where
    line_read : c.buf ≡ render l.url l.tags (behind c (line_text l.url l.tags) unread gives)
    line_read =
        GivesLine-buf c (line_text l.url l.tags) unread gives
        ∙ sym (render-line_text l.url l.tags (behind c (line_text l.url l.tags) unread gives))

    kept-Holds :
        (buf : Bytes)
        → IsCut (render l.url l.tags []) (behind c (line_text l.url l.tags) unread gives) buf
        → Holds (record c { buf = buf }) unread
    kept-Holds buf (pre, e, len) = cut-Holds c (line_text l.url l.tags) unread gives buf pre e (
        len
        ∙ ap length (render-line_text l.url l.tags [])
        ∙ length-append (line_text l.url l.tags) (0 ∷ []))

  module _ (no_error : (s : State) (n : ℕ) → read s n ≢ none) where
    read_feeds-HasFeeds :
        (ls : List FeedLine) (rounds reads : ℕ) (s : State) (c : ConfRead) (text : Bytes)
        (feeds : Feeds)
        → AllWritten ls
        → IsValid feeds.tags
        → count_live feeds.tags.tab + count_tags ls < 33
        → Holds (allocate source junk c) text
        → AtEnd source junk c s
        → text ++ remaining s ≡ file_of ls
        → length ls < rounds
        → length (file_of ls) < reads
        → Returns (read_feeds source junk rounds reads s c feeds) (HasFeeds ls feeds)
    read_feeds-HasFeeds ls zero reads s c text feeds w valid room h at_end e enough fits =
        absurd (omega arith)
    read_feeds-HasFeeds [] (suc rounds) reads s c text feeds w valid room h at_end e enough fits =
        let (no_text, nothing) = append-empty text (remaining s) e in
        let (s', c', run) =
          read_config_line-nothing source junk no_error reads s c
            (subst (Holds (allocate source junk c)) no_text h) nothing (omega arith) in
        (
          feeds,
          read_feeds_step rounds reads s c feeds
              ∙ ap (λ m. m >>= after_read rounds reads feeds) run,
          record { urls = refl; valid = valid; reads = λ m. refl },
        )
    read_feeds-HasFeeds (l ∷ ls) (suc rounds) reads s c text feeds w valid room h at_end e enough
          fits =
        let line : Bytes = line_text l.url l.tags in
        let first : first_line (text ++ remaining s) ≡ some (line, file_of ls) =
          ap first_line e
          ∙ first_line-append line (file_of ls) w.0.0 (line_text_pos l.url l.tags w.0.1) in
        let bound : length (line ++ newline ∷ file_of ls) < reads = fits in
        let (s', c', run, (unread, gives, eof, rest), at_end') =
          read_config_line-first_line source junk no_error reads s c text line (file_of ls) h at_end
            first (omega (arith, bound, ap length e, length-append text (remaining s))) in
        let post : Bytes = behind c' line unread gives in
        let (feeds1, buf, added, is_added, cut) =
          add_line-render feeds l.url l.tags post w.0.1 w.0.2 valid (omega (arith, room)) in
        let c1 : ConfRead = record c' { buf = buf } in
        let holds : Holds c1 unread = kept-Holds l unread c' gives buf cut in
        let (feeds2, run2, has) =
          read_feeds-HasFeeds ls rounds reads s' c1 unread feeds1 w.1 is_added.tags.valid
            (omega (arith, room, is_added.tags.counts))
            (subst (λ x. Holds x unread) (sym (allocate-Holds source junk c1 unread holds)) holds)
            at_end' (sym rest) (omega (arith, enough))
            (omega (arith, bound, length-append line (newline ∷ file_of ls))) in
        (
          feeds2,
          read_feeds_step rounds reads s c feeds
              ∙ ap (λ m. m >>= after_read rounds reads feeds) run
              ∙ ap (λ b. add_line b feeds >>= after_line rounds reads s' c' feeds)
                  (line_read l unread c' gives)
              ∙ ap (λ m. m >>= after_line rounds reads s' c' feeds) added
              ∙ run2,
          HasFeeds-cons l ls post feeds feeds1 feeds2 is_added has,
        )

    -- A file of lines, each a URL with its tags and ended by a newline, with 32 tags at most, in
    -- whatever pieces it is read by a read(2) that does not fail: urlparse comes back with the feeds
    -- of all lines, the last one in front, and the tag table is valid and has under each tag the
    -- numbers of the feeds that name it, the last one in front, and nothing under other names. There
    -- are more rounds than lines and more than bytes.
    pub urlparse-HasFeeds :
        (ls : List FeedLine) (rounds reads : ℕ) (s : State)
        → AllWritten ls
        → count_tags ls < 33
        → remaining s ≡ file_of ls
        → length ls < rounds
        → length (file_of ls) < reads
        → Returns (urlparse source junk rounds reads s) (λ feeds.
          (feeds.urls ≡ all_urls ls [])
          × IsValid feeds.tags
          × ((m : Bytes) → scan feeds.tags.tab m ≡ all_tags ls 0 (λ n. none) m))
    unfolding urlparse
    urlparse-HasFeeds ls rounds reads s w room e enough fits =
        let (feeds, run, has) =
          read_feeds-HasFeeds ls rounds reads s new_conf_read []
            (record { urls = []; tags = init_table }) w init-IsValid
            (omega (arith, (init-empty {V = List ℕ}).0, room)) (allocate-new source junk) (inl refl)
            e enough fits in
        (
          feeds,
          run,
          (
            has.urls,
            has.valid,
            λ m. has.reads m ∙ ap (λ f. all_tags ls 0 f m) (fun_ext (init-empty {V = List ℕ}).1),
          ),
        )
