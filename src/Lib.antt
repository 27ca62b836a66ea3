-- ===== src/Lib.antt =====
-- js-x-ray: static analysis of JavaScript sources for malicious code. The Rust port reads a source into
-- an ESTree syntax tree, walks the tree with probes that raise warnings, follows the imports of the
-- entry files, and reports warnings and collected values (urls, hostnames, ips, dependencies).
--
-- The parts, and the files that model them (paths from the repository's root):
-- - Json: the `serde_json::Value` that trees are made of, with `preserve_order` (crates/js-x-ray/src/
--   estree/mod.rs). Json/Depth measures a tree; Json/Recursion is recursion on that measure, which the
--   functions of estree/ use, since they recurse through `get` and through arrays.
-- - Std: the parameters. Printing and reading of floats, Unicode tables, UTF-8 and UTF-16 decoding and
--   the JSON printer are the standard library's and serde_json's, the matching of regular expressions the
--   crate regex's; a definition that calls one takes the
--   record `Std`, and no theorem assumes anything of it.
-- - Estree: crates/js-x-ray/src/estree/ (types.rs, mod.rs); Estree/Literal is literal.rs; of
--   functions.rs, Estree/Members is the naming of member expressions with the folding of binary and
--   array expressions (four functions that call each other, hence one record of readers),
--   Estree/Calls the naming of calls and their arguments, Estree/Logical the leaves of logical
--   expressions, Estree/Bindings the names that a declaration binds; its find_property_match and get_property_name
--   are left out.
-- - Utils: crates/js-x-ray/src/utils/ (hex.rs, to_array_location.rs); Utils/Patterns is
--   patterns.rs; Utils/Segments is the paths of member expressions (get_sub_member_expression_segments.rs,
--   make_prefix_remover.rs, strip_node_prefix.rs, is_evil_identifier.rs); Utils/OneLine is
--   is_one_line_expression_export.rs; Utils/SafeRegex is safe_regex.rs, Utils/Svg the scanner of XML of
--   is_svg.rs, Utils/Base64 is_string_base64.rs, and Utils/Minified is_minified_code.rs.
-- - Walker: crates/js-x-ray/src/walker/mod.rs. A handler is a closure over the state `S`; the walker's
--   context is saved and put back around its calls as in `run_handler`.
-- - Collectable: crates/js-x-ray/src/collectable_set.rs, an `IndexMap` as a list of pairs.
-- - DiGraph: the dependency graph of crates/js-x-ray/src/entry_files_analyser.rs.
-- - EntryFiles: crates/js-x-ray/src/entry_files_analyser.rs, the path functions on the components that the
--   standard library splits a path into; EntryFiles/Traversal is the traversal, in which the file system,
--   `std::path` and the analyser of one file are parameters. Entry files come without repetitions, as from
--   the set that `analyse` makes of them; the cache of paths is keyed by their text.
-- - Warnings: crates/js-x-ray/src/warnings.rs.
-- - Obfuscation: the recognition of obfuscators. Obfuscation/Counter is node_counter.rs,
--   Obfuscation/Verify the recognisers of obfuscators/, Obfuscation/Score the score of a text
--   (utils/string_suspicion_score.rs), and Obfuscation itself is deobfuscator.rs
--   with the counter of deep expressions that probes/is_binary_expression.rs raises.
-- - Inlined: crates/js-x-ray/src/inlined.rs. A reference to a part of a node is the number of steps to it.
-- - Pipelines: crates/js-x-ray/src/pipelines/ (mod.rs and deobfuscate.rs; Pipelines/Inline is inline.rs).
-- - Tracer: crates/js-x-ray/src/variable_tracer.rs. The shared records are addresses of a store.
--   Tracer/Walk is the walk of imports and of calls of `require`, Tracer/Walk/Declarator the walk of
--   declarators, Tracer/Base64 the decoder, Tracer/Sound the invariant of the state.
-- - VirtualVariableIdentifier: crates/js-x-ray/src/virtual_variable_identifier.rs.
-- - SourceFile: crates/js-x-ray/src/source_file.rs: dependencies, encoded literals and paths;
--   SourceFile/Analysis is its construction, the analysis of literals, the bookkeeping, which walks the
--   tracer and the deobfuscator, and the result.
-- - Probe: the runner of crates/js-x-ray/src/probe.rs. A probe is a trait object, so a record of functions
--   on a state that holds the source file and the probes' own fields.
-- - Prelude: options, lists, texts and insertion-ordered maps. Examples: concrete runs.
--
-- How they interact: the walker calls handlers on the nodes of Json; a pipeline is such a handler; the
-- deobfuscator counts nodes and collects names with Estree/Bindings and judges them with the
-- recognisers; a warning takes its place from Utils/Location, as a collectable set does;
-- the source file stores warnings and feeds the registry of collectable sets; the probe runner names a call
-- with Estree/Calls before it runs the probes.
--
-- Fuel. `walk` takes fuel because a handler may replace a node by a deeper one, which the source then
-- descends into. `find_deep_dependencies` takes `enough`, the number of vertices and one: each call that
-- goes on visits a vertex that was not visited. Recursion through a tree takes its depth and one. The
-- traversal of files takes one more than the files that imports can lead to, since a file is descended into
-- only when its vertex is new. `trace` takes one more than the parts of the path. The
-- other loops are structural. Where the source panics or indexes, the model returns `none`.
--
-- Numbers. The `u32` counters of the deobfuscator wrap at 2 ^ 32. Percentages, which the source
-- computes in floats, are compared as fractions of whole numbers; they agree for counts that a float
-- holds exactly and whose quotient is not within rounding of the bound.
--
-- Not modelled: the parser (oxc and its JSON), the probes themselves, the analyser of one source
-- (ast_analyser.rs), links (shady_link.rs), the wasm binding. Means of floats are
-- kept as a sum and a count.
mod Prelude
pub mod Inlined
pub mod Json
pub mod Std
pub mod Estree
pub mod Utils
pub mod Walker
pub mod Collectable
pub mod DiGraph
pub mod Warnings
pub mod Obfuscation
pub mod Pipelines
pub mod VirtualVariableIdentifier
pub mod Tracer
pub mod SourceFile
pub mod Probe
pub mod EntryFiles
mod Examples
