-- ===== src/Lib.antt =====
-- A verification library of spark-workflow, the services and module clusters that process planning
-- documents.
--
-- PageIndex models 05-modulcluster/modul-inhaltsextraktion/src/activities/pageindex_structure/
-- tree_builder.py: PageIndex/Markdown the headers and their texts, PageIndex/Tokens and
-- PageIndex/Thinning the token counts and the merge of short nodes, PageIndex/Build the tree,
-- PageIndex/Tree the passes over it. The tokenizer of tiktoken is a parameter; texts that hold one
-- of its special tokens, on which it raises, are left aside. A dict that is
-- referred to from two places is named by a number.
--
-- JobService models 02-backend/temporal_job_service/src/services/job_service_service.py:
-- JobService/Extract `_extract_child_workflows` and `_history_to_children`, JobService/Report
-- `history_to_status`, JobService/Tree `build_history_tree`, JobService/Latest the selection in
-- `get_workflows`. The Temporal client is a parameter, and histories are lists of events.
-- `build_history_tree` recurses on fuel, a unit for each level of the tree: a depth limit bounds
-- the levels. Without one nothing in the code does, and the model runs out of fuel or returns.
-- Every other loop is structural.
--
-- Fcs models 02-backend/formal_completeness_check: Fcs the rows and schemas, Fcs/Tables the
-- constraints of src/models/db_models.py, Fcs/Results the import of results by
-- src/services/fcs_service.py and src/services/job_service.py, Fcs/Reading the queries, Fcs/Types
-- the changes by a user, Fcs/Templates the registration of a project for its templates. PostgreSQL
-- is modelled by its constraints: a row that breaks one raises, and deletes cascade. UUIDs, the
-- clock, the results file and the project logic service are parameters. Rows that a query leaves
-- unordered come in the order of their insertion.
--
-- Comments models 02-backend/comment_service/src/services/comment_service.py with its schemas:
-- Comments the operations, Comments/Sources the source reference as columns and back,
-- Comments/Deletion what a deletion leaves. The time that an update writes is a parameter.
--
-- Window models `sliding_window`, in utils/sliding_window.py of 05-modulcluster/
-- modul-inhaltsextraktion/src and of 05-modulcluster/modul-formale-pruefung/src: Window/Rounds the
-- number of tasks in flight, Window/Account what becomes of the items, Window/Strict the two
-- copies side by side. Which tasks finish in a round is the environment's choice.
--
-- Chunking models 05-modulcluster/modul-inhaltsextraktion/src/processors: Chunking/Splitter the
-- class RecursiveCharacterTextSplitter of text_splitters.py, for separators that are texts,
-- Chunking/Headers its class MarkdownHeaderTextSplitter as chunker.py calls it, Chunking/Toc the
-- table of contents of toc_builder.py, Chunking/Merging the merges of chunker.py and of
-- sub_chunk_builder.py, where a regular expression is given by the length of its match. Which
-- characters `\d` matches is a parameter. The two walks over the contents run on fuel, a unit for
-- each level: the level that a title's numbering has grows from parent to child, and so bounds
-- both.
--
-- ShaDiff models 02-backend/document_management_service/src/services/workflows/activities/
-- compute_sha_diff.py: ShaDiff the hashes and the names of both sides, ShaDiff/Renames
-- `get_renamed`, ShaDiff/Diff `create_sha256_diff`. The storage service is a parameter, and so is
-- whether two names are similar enough, which the source finds by floats. `none` is an exception.
--
-- Common holds what the parts share: text as code points, dicts as association lists in insertion
-- order, sorting, lists over native numbers. Timestamps and ids are numbers or texts. Logging,
-- HTTP routing, the SQL texts and the calls of language models are not modelled.
pub mod Common
pub mod PageIndex
pub mod JobService
pub mod Fcs
pub mod Comments
pub mod Window
pub mod Chunking
pub mod ShaDiff
