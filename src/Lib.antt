-- ===== src/Lib.antt =====
-- Package attempt runs one attempt of a policy at a repair task, judges it and records it, and
-- compares two models over recorded results; the package is also a module of a web framework, with
-- one entity behind a policy.
--
-- The parts, and how they interact. The runner drives an agent: it hands each call of the agent to the
-- sandbox, records the answer as a step, and at the end judges the record by a test run of its own and
-- by the steps that the claims cite. The sandbox confines every path to its root and seals the
-- reserved subtrees, so that a test run that changes them is found. The comparison reads two columns
-- of answers and gives counts, rates, an exact test and a bootstrap interval. A request goes from a
-- handler of the module to the service, which asks the policy before it reads or writes. The package
-- answer is apart: it extracts the final answer of a response, reads it as a rational number, and
-- compares it with the answer of a dataset.
--
-- Base                  the shared names: lists, bytes, tests on numbers, Go's int, results
-- Process               sandbox_unix.go and sandbox_other.go: detach and killGroup
--   Process.Killed        proofs: a cancelled test run
-- World                 what is used of the operating system and of the go command: a parameter
-- Trajectory            trajectory.go: the record of an attempt
-- Sandbox               sandbox.go: NewSandbox, Confine, Read, List, Write, RunTests, seal, VerifySeal;
--   Sandbox.Path          path.Clean, filepath.Join and filepath.Dir on Unix, sort.Strings
--   Sandbox.Confined      Confine; Sandbox.Seal the digests; Sandbox.Writes Write
-- Runner                runner.go: execute, reward, countFalseClaims and drive, one round at a time;
--   Runner.Rounds         the loop of drive; Runner.Drive and Runner.Progress its proofs
--   Runner.Claims         claims; Runner.Rewards the reward
--   Runner.Runs           Run, and CopyTree of sandbox.go; Runner.Scores and Runner.Whole its proofs
--   Runner.Replays        scripted, Replay, Verify, and Digest of trajectory.go; Runner.Prefix,
--     Runner.Reproduced, Runner.Verified, Runner.Accepted and Runner.Diverged its proofs
-- Comparison            comparison/comparison.go: Count, Rates; Validate and Tally have the proofs
--   Comparison.Exact      comparison/exact.go
--   Comparison.Draw       comparison/bootstrap.go, draw
--   Comparison.Bootstrap  comparison/bootstrap.go, the rest
-- Answer                answer/answer.go: the errors and the rational numbers
--   Answer.Text           what is used of unicode/utf8, unicode and strings
--   Answer.Latex          answer/latex.go
--   Answer.Number         answer/parse.go: digits, decimals and arguments of a fraction
--   Answer.Refusal        answer/parse.go: refusal and classify
--   Answer.Parse          answer/parse.go: Parse, parseLayer, prefix, parseBody, parseFrac
--   Answer.Extract        answer/extract.go
--   Answer.Verdict        answer/answer.go, Verify; answer/reference.go
--   Answer.Values         proofs: equal fractions; Answer.Verdicts and Answer.References the verdict
--   Answer.Refusals       proofs: errors; Answer.Sound what Parse returns; Answer.Bounds indices
--   Answer.Numerals       proofs: numerals; Answer.Grammar what is read; Answer.RoundTrip what is
--     written; Answer.Trim white space; Answer.Written bare numbers; Answer.Braces braces;
--     Answer.Commands and Answer.Boxes the search for a box; Answer.Marks signs and currency
--     marks; Answer.Hashes hash signs
-- Service               config.go, model.go, policy.go, service.go: the policy, Create, Find, List
--   Service.Access        the policy and the service; Service.Pages the pages of List
-- AttemptQuery          AttemptQuery.go: the query and its conversions
--   AttemptQuery.Build    the methods that build; AttemptQuery.Terminals the methods that run;
--     AttemptQuery.Collection those of a collection and of a row
--   AttemptQuery.Listing  service.go, List, through the methods of the query; AttemptQuery.Records
--     Create and Find; AttemptQuery.Meaning, AttemptQuery.Refines and AttemptQuery.Refined the
--     proofs; AttemptQuery.Conversions the conversions
-- Module                config.go, model.go, module.go: New, the routes, the responses and the handlers
--   Module.Schema         the migration and the table; Module.Settings, Module.Responses and
--     Module.Browse the proofs
-- Tests                 small worlds, at which the theorems are applied
--
-- How the code is read. A text is the list of its bytes. An int is an integer, and the sums that can
-- leave 64 bits are wrapped. The state of the file system is passed from call to call; a test run
-- may change it in any way. A loop over a slice is a structural recursion. The loop of Confine over
-- the ancestors of a path takes fuel, one more than the length of the path, which is enough
-- since each parent is shorter; the loop of drive takes fuel, and a limit on calls says how much is
-- enough. The words of the generator are a list that may run out. Parse is a recursion on the
-- wrappers that are left, 8 at first; the loop over the marks in front of a number and the search
-- for the last command take fuel, one more than the length of the text, which is enough since each
-- round shortens what is left of it. A scan over a text counts the bytes that it has still to pass
-- over. A rational number is a fraction that need not be in lowest terms. Operations on float64, the
-- hash, the patterns of the output of a test run, unicode.IsLetter, unicode.IsNumber and the
-- framework are parameters; what a theorem needs of them is a hypothesis that it names.
--
-- A method of the query that builds returns the query with the changed builder, in place of the
-- pointer to the query that it changes. A nil slice and an empty one differ where the code returns
-- either. Of the processes of a test run only their groups, who may signal them and what has been
-- sent to them are seen, apart from the file system.
--
-- Not modelled: the query builder, the schema builder and the session store, which are parameters;
-- contexts, and so when a test run is cancelled; the texts of most errors; the elapsed time of a test
-- run.
pub mod AttemptQuery
pub mod Base
pub mod Process
pub mod Comparison
pub mod Trajectory
pub mod Sandbox
pub mod Runner
pub mod Service
pub mod Module
pub mod Answer
pub mod Tests
pub mod World
