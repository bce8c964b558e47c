-- ===== src/Lib.antt =====
-- citeproc-rs formats citations and bibliographies by a CSL style. A document is a list of clusters
-- of cites; the processor (crates/citeproc) keeps them in a database (crates/db), the rendering crate
-- (crates/proc) computes for each cite its position, its year suffix and its text, and the style and
-- its locales come from crates/csl and the data of cites, dates and references from crates/io.
--
-- How the parts are modelled, a file or a folder of files for each:
--   ClusterOrder    crates/citeproc/src/processor.rs, `set_cluster_order_inner`: the caller's list of
--                   clusters and notes becomes the clusters' numbers. One state record holds the
--                   local variables and the numbers in the database; `place` is one turn of the loop.
--   Processor       crates/citeproc/src/processor.rs, the rest: the edits of clusters (Clusters, Edits),
--                   with ClusterOrder as one of them, and of references (References); the previews,
--                   which change the document and restore it (Preview); and the updates for a client
--                   (Updates), whose copy of the outputs Client describes. The rendering of a cluster
--                   and the interning of cites are parameters.
--   ClusterNumber   crates/db/src/cluster.rs: the numbers, their orders, and the distance of notes.
--   Cites           crates/io/src/cite.rs: a cite, its locators, and the modes it may have.
--   CitePositions   crates/proc/src/db.rs, `cite_positions`: it reads the clusters with the numbers of
--                   ClusterOrder. `cite_step` is the body of the loop over cites, `cluster_step` that
--                   of the loop over clusters, and the hash maps are functions.
--   Position        crates/csl/src/style/mod.rs, `Position::matches`: a position of CitePositions
--                   against one of a condition.
--   YearSuffixes    crates/proc/src/db.rs, `year_suffixes`: `round` is the treatment of one reference,
--                   `assign_group` that of one group. Hash sets are lists.
--   Collapse        crates/proc/src/cluster.rs: the cites of a cluster are grouped by name (Names) and
--                   collapsed by number (Numbers), by year (Years) or by year suffix (Suffixes, with
--                   `collapse_cites`). What it asks of the rendered trees is the record `Tree`.
--   Layout          crates/proc/src/cluster/layout.rs: the delimiters, the stream of chunks (Stream),
--                   whose vector is a list with the last chunk first, and in Layout.Cluster
--                   `built_cluster_before_output` of crates/proc/src/cluster.rs, which groups and
--                   collapses the cites with Collapse and writes them to two streams.
--   Sorting         crates/proc/src/sort.rs: the items by which references and cites are sorted (Keys)
--                   and their order, the bibliography with its numbers (Refs), and the queries of
--                   crates/db/src/cite.rs on what is cited (Document). YearSuffixes and the citation
--                   numbers of Collapse read the numbers; the clusters of ClusterOrder are the input.
--                   Natural is sort/natural_sort.rs, from the tokens of a text on.
--   Pages           crates/proc/src/page_range.rs: the second page of a range, shortened.
--   Names           crates/proc/src/names.rs: the names of a variable that are shown at a position of
--                   Position, with "and" and "et al" (Names), and the parts of a name (Names.Parts).
--   Numbers         crates/proc/src/number.rs: lists of number tokens as text, with the ranges of Pages,
--                   the numerals of Roman and the ordinals of Terms.
--   Dates           crates/io/src/date.rs: dates and ranges, their orders, and their number parts.
--   Choose          crates/proc/src/choose.rs: conditions, which read Position and Dates, and branches.
--   Lang            crates/csl/src/locale/lang.rs: the chain of locales for a language.
--   Terms           crates/csl/src/terms.rs: the terms that a locale of Lang is asked for, and those
--                   that stand in for them; the month of a date of Dates selects one.
--   Locale          crates/csl/src/locale.rs and crates/db/src/xml.rs: a locale, its merging and its terms,
--                   which are looked up by the selectors of Terms, and in Locale.Database the queries
--                   from a language, by the chain of Lang, to the merged locale.
--   FlipFlop        crates/io/src/output/markup/flip_flop.rs: quotes and formatting inside each other, in
--                   the trees of the output.
--   Roman           crates/io/src/numeric/roman.rs: numerals, whose texts are lists of codes.
--   GroupVars       crates/proc/src/group.rs, and its use in `sequence` of crates/proc/src/helpers.rs.
--   Base            names and lemmas that the others share; Base.Runs is the grouping of a slice into
--                   runs, which the code copies from the standard library.
--
-- Identifiers of clusters, cites and references, interned strings and the variants of large
-- enumerations without data are natural numbers. Unsigned 32-bit arithmetic wraps, as in a release
-- build. Loops recurse on the list that they walk. Fuel is used by the iterators of Lang and Terms,
-- for which three units are enough, or five for ordinals, by the inner loop of Roman, for which the
-- number is, and by the loops over digits of Pages, for which ten rounds are, since a u32 has no
-- more digits. What a query reads from the database (the order of the clusters, the cites of a
-- cluster, the references that an ambiguous cite matches) is a field of a record, so that the
-- theorems hold for whatever the database answers.
--
-- Panics are results: an assertion that fails, an `expect` without a value and `unreachable!` are
-- the none of an Option, and a preview that reads an unset input is `panicked`. The standard
-- library's sort, where a comparison may panic, is a parameter with the hypothesis that it
-- rearranges its input when no comparison does.
--
-- Not modelled: the parsers, which are combinators of third-party crates over XML, JSON and text;
-- the database, which is the salsa crate's; the output formats; the rendering of elements and of
-- the parts of names, the transformations of rendered trees, and disambiguation; the command line
-- and the bindings.
pub mod Base
pub mod Choose
pub mod CitePositions
pub mod Cites
pub mod ClusterNumber
pub mod ClusterOrder
pub mod Collapse
pub mod Dates
pub mod FlipFlop
pub mod GroupVars
pub mod Lang
pub mod Layout
pub mod Locale
pub mod Names
pub mod Numbers
pub mod Pages
pub mod Position
pub mod Processor
pub mod Roman
pub mod Sorting
pub mod Terms
pub mod YearSuffixes
