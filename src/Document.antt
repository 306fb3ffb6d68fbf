-- ===== src/Document.antt =====
-- src/xmlproc.c: from a feed document to the cache. The trees are libxml2's: an element or another
-- node, with its name, its content and its children. Parsing and the style sheets of libxslt are
-- outside, as are strptime(3) and strftime(3) and the random names of SQLite.
pub mod Refresh
pub mod Cycle
pub mod Entries
mod Tests
use newsbaoter.Common.{
  ℕ, zero, suc, ◌+◌, ◌≡◌, Bool, true, false, not, ◌&&◌, Option, none, some, List, [], ◌∷◌, Bytes,
  String, codes, str_eq, take, ltb, if◌then◌else◌,
}
use newsbaoter.Common.Int.{ℤ, pos, negsuc}
use newsbaoter.Cache.{
  Text, Db, FeedData, EntryData, cache_init_cleanup, cache_cleanup_old, cache_update_feed,
  cache_update_entry, get_num_unread,
}

-- `xmlNode`, by its type, name, content and children
mutual
  pub data Node : Type 0 where
    node : Bool → Bytes → Text → Nodes → Node

  pub data Nodes : Type 0 where
    nil : Nodes
    cons : Node → Nodes → Nodes

abbrev pub children : Node → Nodes
children (node e n c ns) = ns

-- an element of this name
abbrev pub is_element : Bytes → Node → Bool
is_element name (node e n c ns) = e && str_eq n name

-- `find_xml_node`, for elements
unfoldable pub find_xml_node : Nodes → Bytes → Option Node
find_xml_node nil name = none
find_xml_node (cons n ns) name = if is_element name n then some n else find_xml_node ns name

-- the content of the first child
abbrev pub first_content : Nodes → Text
first_content nil = none
first_content (cons (node e n c ns) rest) = c

unfoldable pub get_content_if_avail : Nodes → Bytes → Text
unfolding find_xml_node
get_content_if_avail ns str = elim (find_xml_node ns str) [
  | none ↦ none
  | some n ↦ first_content (children n)
]

-- `get_spec_sheet`, on the name of the root element and its attribute `version`
abbrev pub atom_sheet : Text → String
atom_sheet none = "Atom_10_xsl.xml"
atom_sheet (some v) = if str_eq v (codes "0.3") then "Atom_03_xsl.xml" else "Atom_10_xsl.xml"

abbrev pub rss_sheet : Text → String
rss_sheet none = "RSS_09_xsl.xml"
rss_sheet (some v) = if str_eq v (codes "2.0") then "RSS_20_xsl.xml" else "RSS_09_xsl.xml"

unfoldable pub get_spec_sheet : Text → Text → String
get_spec_sheet none version = "RSS_09_xsl.xml"
get_spec_sheet (some name) version =
    if str_eq name (codes "feed")
    then atom_sheet version
    else if str_eq name (codes "RDF")
    then "RDF_xsl.xml"
    else if str_eq name (codes "rss")
    then rss_sheet version
    else "RSS_09_xsl.xml"

-- the feed's row, with the URL that was fetched
unfoldable pub feed_data : Bytes → Nodes → FeedData
unfolding get_content_if_avail
feed_data url ns = record {
  title = get_content_if_avail ns (codes "title");
  url = some url;
  desc = get_content_if_avail ns (codes "description");
  auth_name = get_content_if_avail ns (codes "authorName");
  auth_email = get_content_if_avail ns (codes "authorEmail");
  iurl = get_content_if_avail ns (codes "imageUrl");
  itext = get_content_if_avail ns (codes "imageText");
}

-- what the document has for an entry
unfoldable pub raw_entry : Nodes → EntryData
unfolding get_content_if_avail
raw_entry ns = record {
  title = get_content_if_avail ns (codes "title");
  pdate = get_content_if_avail ns (codes "publishDateTime");
  udate = get_content_if_avail ns (codes "lastUpdatedDateTime");
  url = get_content_if_avail ns (codes "url");
  auth_name = get_content_if_avail ns (codes "authorName");
  auth_email = get_content_if_avail ns (codes "authorEmail");
  desc = get_content_if_avail ns (codes "description");
  content = get_content_if_avail ns (codes "content");
  uid = get_content_if_avail ns (codes "entryUniqueId");
}

-- `struct tm` with the functions on it: `strptime(t,"%F %T %z",&tp)` on what `tp` holds, and
-- `strftime(s,20,"%s",&tp)`; `unset` is what the uninitialised one of a call holds.
pub record TimeLib : Type 1 where
  pub Tm : Type 0
  pub strptime : Bytes → Tm → Tm
  pub strftime : Tm → Bytes
  pub unset : ℕ → Tm

-- The first bytes of a description or a content, as a title.
abbrev pub short_title : Bytes → Bytes
short_title s = take 49 s

abbrev pub title_of : Text → Text → Text → Text → Text
title_of (some title) desc content uid = some title
title_of none (some desc) content uid = some (short_title desc)
title_of none none (some content) uid = some (short_title content)
title_of none none none uid = uid

abbrev pub or_text : Text → Text → Text
or_text (some t) other = some t
or_text none other = other

-- What libxml2 and libxslt make of the blocks of one transfer: whether a parser was made, whether
-- the last chunk is refused, whether the document is well-formed, and the root of what the style
-- sheet gives.
pub record Parsed : Type 0 where
  pub has_ctx : Bool
  pub refused : Bool
  pub well_formed : Bool
  pub root : Option Node

module _ (time : TimeLib) where
  open time use {Tm, strptime, strftime, unset}

  -- a date in seconds, and `tp` after it
  abbrev pub convert_date : Text → Tm → Text × Tm
  convert_date none tp = (none, tp)
  convert_date (some t) tp = let tp' = strptime t tp in (some (strftime tp'), tp')

  -- the array of `update_entry` as it is stored, with the name that `cache_get_new_uid` gives
  unfoldable pub entry_data : ℕ → Bytes → EntryData → EntryData
  entry_data k new_uid raw =
      let (pdate, tp) = convert_date raw.pdate (unset k) in
      let (udate, tp') = convert_date raw.udate tp in
      let uid = or_text raw.uid (some new_uid) in
      record raw {
        pdate = or_text pdate udate;
        udate = udate;
        uid = uid;
        title = title_of raw.title raw.desc raw.content uid;
      }

  module _ (strtol : Bytes → ℤ) (new_uid : ℕ → Bytes) where
    -- `update_entry`; `k` is how many nodes stand before
    unfoldable pub update_entry : ℕ → Nodes → ℕ → Db → Db
    unfolding entry_data raw_entry
    update_entry feedid ns k db =
        cache_update_entry strtol feedid (entry_data k (new_uid k) (raw_entry ns)) db

    -- the loop of `update_entries`
    unfoldable pub update_nodes : ℕ → Nodes → ℕ → Db → Db
    unfolding update_entry
    update_nodes feedid nil k db = db
    update_nodes feedid (cons n ns) k db =
        update_nodes feedid ns (k + 1)
          (if is_element (codes "entry") n then update_entry feedid (children n) k db else db)

    -- `now` and `retention` are those of `cache_cleanup_old`.
    unfoldable pub update_entries : ℤ → ℤ → ℕ → Nodes → Db → Db
    unfolding update_nodes
    update_entries now retention feedid ns db =
        cache_cleanup_old now retention feedid
          (update_nodes feedid ns 0 (cache_init_cleanup feedid db))

    -- `xmlproc_update_cache`, on the root element: 1 where more entries are unread than before.
    unfoldable pub xmlproc_update_cache : ℤ → ℤ → Bytes → Option Node → Db → ℕ × Db
    unfolding update_entries feed_data
    xmlproc_update_cache now retention url none db = (0, db)
    xmlproc_update_cache now retention url (some root) db =
        let (feedid, db1) = cache_update_feed (feed_data url (children root)) db in
        let db2 = update_entries now retention feedid (children root) db1 in
        ((if ltb (get_num_unread db) (get_num_unread db2) then 1 else 0), db2)

    -- `xmlproc_finish`: its result, `*newentry` and the tables
    unfoldable pub xmlproc_finish : ℤ → ℤ → Bytes → Parsed → Db → ℕ × ℕ × Db
    unfolding xmlproc_update_cache
    xmlproc_finish now retention url h db =
        if not h.has_ctx
        then (1, 0, db)
        else if h.refused
        then (1, 0, db)
        else if not h.well_formed
        then (1, 0, db)
        else (let (newentry, db') = xmlproc_update_cache now retention url h.root db in
            (0, newentry, db'))
