-- ===== src/Lib.antt =====
-- Verification of the core of the launcher, the Rust crate of the repository at
-- rust/crates/rc-launcher-core. The files of the source that are named here are below
-- rust/crates/rc-launcher-core/src.
--
-- The launcher resolves a version of the game into a plan of files (game), fetches files and
-- metadata through a layer that retries and falls back to an offline cache (robust), checks the
-- mods of an instance (mods), reports its background jobs through an event bus, builds the command
-- line of the game and explains how a run ended, and shows the desktop of a Java program that runs
-- without a screen (launch): the program sends frames of pixels, a double-buffered canvas holds
-- them, and the user interface polls the rectangles that changed.
--
-- - Error is error.rs: the error values and their severity.
-- - Robust is robust/: Robust.Retry the retry loop (retry.rs), Robust.Backoff its delays
--   (download/manager.rs), Robust.Cache the cache and the fetch that degrades to it (cache.rs).
--   Their clock, disk failures and network answers are arguments.
-- - Awt is launch/awt.rs: Awt.Rect the rectangles and the damage, Awt.Frame the frame and its
--   bytes, Awt.Canvas the double buffer, Awt.Viewport the placement on the surface; Awt.Poll is the
--   polling of launch/fakefx.rs. Awt.Rows and Awt.Bytes are the row loops and the little-endian
--   fields that they share.
-- - Awt.Event and Awt.Input are the input side of launch/awt.rs: the events and their records, and
--   the translator that keeps the held buttons and keys.
-- - Download is download/manager.rs: Download.Plan the chunks of a file, Download.Resume the
--   side-car, Download.Chunk one chunk with its retries, Download.Manager a whole download.
--   Download.Range is a request for a range as download/client.rs makes it, over a server that is a
--   parameter. The HTTP source and the digests are parameters; all missing chunks run, one after
--   another, and a run fails with the first error.
-- - Log is the bounded log buffer of launch/process.rs.
-- - Game is game/: Game.Pattern and Game.Platform the rules on a platform (platform.rs),
--   Game.Library the libraries, their coordinates and rules (library.rs), Game.Version the merge of
--   a chain of versions and the walk along inheritsFrom that collects it (version.rs, and
--   resolve_version of resolve.rs), Game.Plan the plan of what to download (resolve.rs, assets.rs),
--   with the paths in Game.Path. The plan asks Game.Library for the jars and Mirror for the URLs.
--   The fetch of one version, JSON values and the parser of URLs are parameters. The walk has fuel:
--   one more than the manifest has versions is enough, since it visits none twice.
-- - Mirror is net/mirror.rs: the mirrors and the URLs that they offer; what the probes measure is
--   an argument.
-- - Mods is mods/: Mods.Constraint the version constraints (constraint.rs), with the ranges of the
--   crate semver as a parameter, Mods.Conflict the issues of a loadout (conflict.rs).
-- - Event is event.rs, the events and the bus that numbers them; Jobs is jobs.rs, the background
--   jobs that publish on it. A job is cut into steps at the places where others may run, and a run
--   is a sequence of such steps, of spawns and of cancellations.
-- - BufPool is the pool of byte buffers of util/bufpool.rs, with what the allocator gives as a
--   parameter; a capacity that is a power of two is kept as its exponent, and 64 rounds of the
--   search for it are enough for a usize.
-- - Launch is the rest of launch/: Launch.Args the templates of arguments (args.rs), Launch.Options
--   what the user chooses (options.rs), Launch.Env the environment and the search path of libraries
--   (env.rs, render.rs), Launch.Bridge the arguments that switch AWT (awt.rs), Launch.Table,
--   Launch.BaseArgs, Launch.Merge, Launch.GameArgs and Launch.Build the builder of a command line,
--   Launch.Command the command with its check, redaction and shell form (command.rs),
--   Launch.Classpath the builder of the class path (classpath.rs), and Launch.Crash the diagnosis
--   of a run that ended (crash.rs). JSON values, the listing of a directory and the existence of a
--   file are parameters; a path is its text, and is compared by its components. The loops over a
--   text have its length as fuel, since each round reads a character.
-- - Runtime is the names of Java runtimes and ABIs in runtime/.
-- - Classpath is the order of Maven versions of launch/classpath.rs.
-- - Base holds the shared names: Boolean tests, lists with slices, results, integers, and texts as
--   lists of character codes with the operations on strings that the source uses.
--
-- A number of the source is a native natural number; where the source wraps or saturates, so does
-- the model, and a theorem that needs a range says so. A method that mutates its object is a
-- function that returns the new object. The retry loops recur on the attempts that are left, which
-- is enough since each ends at the last one.
--
-- Locks, threads and the file system are not modelled: each operation is atomic, and the order of
-- operations is the order of a list of calls or steps. Not modelled are the manifests of mods and
-- their packs, which are JSON and TOML documents, the process of the game and its supervision, the
-- accounts, and the foreign interfaces; nor the pool of objects in util/bufpool.rs, the mapping of
-- touch coordinates and the exports of the canvas in launch/awt.rs, the batch functions and
-- progress events of download/manager.rs, into_tasks of game/resolve.rs, the request with its
-- candidate URLs in game/version.rs, and the process-wide singleton and the JSON form of the events
-- in event.rs.
pub mod Base
pub mod Error
pub mod Robust
pub mod Awt
pub mod Download
pub mod Log
pub mod Game
pub mod Mirror
pub mod Mods
pub mod Event
pub mod Jobs
pub mod BufPool
pub mod Classpath
pub mod Runtime
pub mod Launch
