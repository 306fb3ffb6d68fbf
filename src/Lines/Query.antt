-- ===== src/Lines/Query.antt =====
-- src/sql/viewio.c: the rows of the queries for the lists.
use newsbaoter.Common.{
  ℕ, ◌+◌, Bool, true, ◌&&◌, ◌||◌, Option, none, some, List, [], ◌∷◌, codes, take, drop, ◌==◌,
  if◌then◌else◌,
}
use newsbaoter.Common.Int.{ℤ, pos, negsuc, ltbℤ}
use newsbaoter.Cache.{Text, Db, Feed, Entry, of_feed, is_unread, get_num_unread}
use newsbaoter.Cache.Table.{select, keep, count}

pub record FeedRow : Type 0 where
  pub title : Text
  pub url : Text
  pub read : ℕ
  pub total : ℕ
  pub id : ℕ

-- `feed_title` is the fifth column, where there is one.
pub record EntryRow : Type 0 where
  pub title : Text
  pub viewed : ℕ
  pub date : ℤ
  pub id : ℕ
  pub feed_title : Option Text

abbrev pub unread_row : Db → FeedRow
unread_row db = record {
  title = some (codes "Unread Articles");
  url = some (codes "None");
  read = 0;
  total = get_num_unread db;
  id = 0;
}

unfoldable pub sum_viewed : List Entry → ℕ
sum_viewed [] = 0
sum_viewed (e ∷ es) = e.viewed + sum_viewed es

-- the group of a feed, if it has a row
abbrev pub group_row : Feed → List Entry → List FeedRow → List FeedRow
group_row f [] rest = rest
group_row f (e ∷ es) rest =
    record {
      title = f.title;
      url = f.url;
      read = sum_viewed (e ∷ es);
      total = count (λ x. true) (e ∷ es);
      id = f.feed_id;
    }
    ∷ rest

-- `show` is `show_read_feeds`.
unfoldable pub feed_rows : Bool → List Entry → List Feed → List FeedRow
feed_rows show es [] = []
feed_rows show es (f ∷ fs) =
    group_row f (keep (λ e. of_feed f.feed_id e && (show || is_unread e)) es) (feed_rows show es fs)

-- ORDER BY PubDate DESC
abbrev pub insert_by_date : EntryRow → List EntryRow → List EntryRow
insert_by_date r [] = r ∷ []
insert_by_date r (x ∷ xs) = if ltbℤ r.date x.date then x ∷ insert_by_date r xs else r ∷ x ∷ xs

unfoldable pub by_date : List EntryRow → List EntryRow
by_date [] = []
by_date (r ∷ rs) = insert_by_date r (by_date rs)

abbrev pub entry_row_of : Entry → Option Text → EntryRow
entry_row_of e feed_title = record {
  title = e.title;
  viewed = e.viewed;
  date = e.pub_date;
  id = e.entry_id;
  feed_title = feed_title;
}

unfoldable pub rows_of_feed : List Entry → List EntryRow
rows_of_feed [] = []
rows_of_feed (e ∷ es) = entry_row_of e none ∷ rows_of_feed es

-- the entries of a feed; `show` is `show_read_entries`
unfoldable pub entry_rows : Bool → ℕ → Db → List EntryRow
unfolding rows_of_feed by_date
entry_rows show feedid db =
    by_date (rows_of_feed (keep (λ e. of_feed feedid e && (show || is_unread e)) db.entries))

-- entries with their feeds
unfoldable pub joined : List Feed → List Entry → List EntryRow
joined fs [] = []
joined fs (e ∷ es) = elim (select (λ f. f.feed_id == e.feed_id) fs) [
  | none ↦ joined fs es
  | some f ↦ entry_row_of e (some f.title) ∷ joined fs es
]

-- all that is unread
unfoldable pub unread_rows : Db → List EntryRow
unfolding joined by_date
unread_rows db = by_date (joined db.feeds (keep is_unread db.entries))

-- `LIMIT start,n`: a number below 0 is no limit
abbrev pub limited {ℓ} : {A : Type ℓ} → ℕ → ℤ → List A → List A
limited start (pos n) rows = take n (drop start rows)
limited start (negsuc n) rows = drop start rows
