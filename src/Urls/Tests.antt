-- ===== src/Urls/Tests.antt =====
-- src/urlparse.c: runs on concrete lines, with a read(2) that returns five bytes at most.
use newsbaoter.Common.{◌≡◌, refl, none, some, [], ◌∷◌, Bytes, List, str_eq, codes, arith}
use newsbaoter.Common.Run.{Returns}
use newsbaoter.Hash.View.{scan}
use newsbaoter.Hash.Valid.{IsValid}
use newsbaoter.Config.Tests.{slow, zeros, no_error}
use newsbaoter.Config.Words.Cut.{Spaced}
use newsbaoter.Urls.{urlparse}
use newsbaoter.Urls.Line.{tagged}
use newsbaoter.Urls.Whole.{FeedLine, AllWritten, file_of, all_urls, all_tags, urlparse-HasFeeds}

abbrev url : Bytes
url = b'h' ∷ b't' ∷ b't' ∷ b'p' ∷ b':' ∷ b'/' ∷ b'/' ∷ b'a' ∷ []

abbrev tag : Bytes → Spaced
tag s = record { blank = b' '; more = []; word = s }

abbrev news : Bytes
news = b'n' ∷ b'e' ∷ b'w' ∷ b's' ∷ []

-- one tag twice, and another one
abbrev tags_of_line : List Spaced
tags_of_line = tag news ∷ tag (b'b' ∷ []) ∷ tag news ∷ []

abbrev feed_lines : List FeedLine
feed_lines =
    record { url = url; tags = tags_of_line }
    ∷ record { url = codes "http://b"; tags = tag news ∷ [] }
    ∷ []

feed_lines-AllWritten : AllWritten feed_lines
feed_lines-AllWritten = ground arith

urlparse-HasFeeds_example : Returns (urlparse slow zeros 9 99 (file_of feed_lines)) (λ feeds.
    (feeds.urls ≡ all_urls feed_lines [])
    × IsValid feeds.tags
    × ((m : Bytes) → scan feeds.tags.tab m ≡ all_tags feed_lines 0 (λ n. none) m))
urlparse-HasFeeds_example =
    urlparse-HasFeeds slow zeros no_error feed_lines 9 99 (file_of feed_lines) feed_lines-AllWritten
      (omega arith) refl (omega arith) (omega arith)

-- A tag that the line names twice has the feed twice.
news_twice : tagged 0 tags_of_line (λ _. none) news ≡ some (0 ∷ 0 ∷ [])
unfolding str_eq
news_twice = refl
