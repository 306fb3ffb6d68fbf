-- ===== src/Start/Tests.antt =====
-- src/newsbaoter.c: a run of the program on a terminal of four lines, with two small files.
use newsbaoter.Common.{
  ℕ, false, Option, none, some, List, [], ◌∷◌, ◌++◌, Bytes, codes, str_eq, if◌then◌else◌,
}
use newsbaoter.Common.Int.{ℤ, pos}
use newsbaoter.Cache.{Db, Feed}
use newsbaoter.Lines.Tests.{row0, two_entries}
use newsbaoter.Screen.{World}
use newsbaoter.Screen.InRange.{InRange}
use newsbaoter.Start.{Event, key, transfer}

abbrev terminal : World
terminal = record {
  lines = 4;
  cols = 30;
  junk = λ i. 0;
  junk_row = λ i. row0;
  html_pager = false;
  notify_beep = false;
  confirm_exit = false;
  datetime = λ d. [];
  fetch = λ db. (pos 0, db);
}

abbrev single : Bytes → Option ℤ
single [] = none
single (c ∷ s) = some (pos c)

abbrev one_byte : Bytes → ℕ
one_byte s = 0

abbrev as_byte : ℕ → Bytes
as_byte c = c ∷ []

abbrev feed : ℕ → Feed
feed i = record {
  feed_id = i;
  title = some (codes "news");
  url = some (codes "http://a");
  description = none;
  author_name = none;
  author_email = none;
  image_url = none;
  image_text = none;
}

-- two feeds, with the entries of the first one
abbrev two_feeds : Db
two_feeds = record { feeds = feed 7 ∷ feed 8 ∷ []; entries = two_entries.entries }

abbrev conf : Bytes
conf = codes "pager cat" ++ 10 ∷ []

abbrev urls : Bytes
urls = codes "http://a news" ++ 10 ∷ []

abbrev files : Bytes → Option Bytes
files path = if str_eq path (codes "/h/.newsbaoter/urls") then some urls else some conf

abbrev events : List Event
events = key (pos b'j') false ∷ transfer ∷ key (pos b'q') false ∷ []
