-- ===== src/Lib.antt =====
-- jme-loop: a loop that takes tickets of a repository one by one through planning, building,
-- verification, review and a merge gate, with no one at the keyboard. This library models its
-- core and states what keeps an unattended run safe.
--
-- The parts and their files:
-- - LoopState (src/loopState.ts): the states of a run as a data type, the table TRANSITIONS, the
--   failure routes, the terminal states, and the parser of a persisted phase. LoopState/Paths and
--   LoopState/Gates take the table as a step relation.
-- - RunState (src/runState.ts): the persisted snapshot and event, and parseRunState over values of
--   Json. RunStore (src/runStore.ts, createMemoryRunStore): runs, snapshots, events and artifacts
--   as association lists, passed from call to call.
-- - LoopKernel (src/loopKernel.ts): current, advance and resume over that store. A promise that is
--   rejected is the value `throw`, beside the store that the call left behind.
--   LoopKernel/Histories drives a run by any sequence of calls of advance.
-- - Budget and BudgetGuard (src/budget.ts): the ceilings of a run and the verdict over its events; the
--   views that the loop persists, and the guard that the driver consults.
-- - MergeGate (src/mergeGate.ts), Autonomy (src/autonomy.ts, with the flags of src/config.ts), Ci
--   (src/ci.ts): the risk of a diff, the policy, and the observation of the checks, from which
--   MergeGateStep (src/mergeGateStep.ts) decides and merges or escalates. The step is the sequence
--   of its calls, cut where a call throws.
-- - ExecutePlan (src/executePlan.ts with src/diagnosis.ts): the loop that builds, verifies, diagnoses
--   and tries again. ReviewStep (src/reviewStep.ts): the rounds of review and fix. Both take what the
--   outside answers, indexed by the attempt or the round, and give their result with the list of
--   their effects.
-- - TicketRun (runTicket of src/orchestrator.ts, with src/ticketStart.ts, src/ticketExecutionGate.ts
--   and src/ticketReviewClose.ts): one ticket as the sequence of its calls, from the answers of the
--   steps above to the merge gate; a call that throws is followed by what its handler does.
-- - TicketFailure (src/ticketFailure.ts, with src/ticketRunContext.ts, src/ticketRecorder.ts and
--   src/executionNote.ts): the handler that flags a ticket and returns to SelectTicket, over the
--   driver and the store. A run has an id; whether the log takes a flag is an input.
-- - RunLoop (runLoop of src/orchestrator.ts): the resumption of an interrupted run (Start), the pass
--   over the backlog and the end of the run (Session), and the rounds (Round), over the store, the
--   driver, the budget and the queue. The calls of runTicket, runRefineBacklog and
--   runApplyRefinement are functions on the store that may throw; the theorems ask of them at most
--   that they keep each snapshot under its run id (RunLoop.Outcomes.KeepsKeys). The rounds are a
--   list, one entry for each turn of the `while`, with what that turn meets outside.
-- - TicketIds and TicketAllocation (src/ticketAllocation.ts, and allocateTicketIds of
--   src/structuralRefinement.ts): the ids of new tickets, from the local and the remote files. The
--   theorems on new ids assume numbers that leave room for them below 2^53.
-- - ApplyRefinement (src/applyRefinement.ts): the edits of a proposal as changes of the pass's
--   variables, and Commit, the gates with the writes, the commit and the way back, over a disk that
--   maps the paths that exist to their contents. A write that fails may leave its file cut short. StructuralRefinement has the texts that it writes.
-- - StructuralIntegrity (src/structuralIntegrity.ts): the checks of the graph of tickets over the files
--   that were read; the order of ids (localeCompare) is an input. Coverage (src/coverage.ts,
--   computeCoverage): the behaviours of an epic that its tickets claim.
-- - Retention (src/retention.ts): the run directories and preserved worktrees that are deleted when a
--   loop starts. What the file system answers may depend on what was done before.
-- - Skill (src/skill.ts, src/skillProvider.ts, src/skillRunner.ts): the bounded re-asks of a skill that
--   a model answers, and the attempts that are kept in files by name; a validator and a provider are
--   functions.
--   SkillRegistry (src/skillRegistry.ts, createSkillRegistry): the skills by name.
-- - SkillManifest (src/skillManifest.ts): the manifests of a project's skills, and the validators that
--   their schemas compile to. Checked: the result of a validator, which RefineTickets uses too.
-- - RefineTickets (src/skills/refineTickets.ts): the validators of the proposal whose edits
--   ApplyRefinement makes, and its rendering.
-- - Resume (src/resume.ts): the point at which an interrupted run is taken up again, from the store's
--   latest run to resume and its events.
-- - Queue (src/scanTickets.ts): ticket files from their parsed frontmatter, the ready tickets and the
--   choice of the next one. The order of ids (localeCompare) and the existence of files are inputs.
-- - TicketOutcomes (src/ticketOutcomes.ts): what became of each ticket, read from a run's events.
-- - Prelude: lists, texts, decimal numbers, integers and the numbers of the language, doubles included.
-- - Tests: the theorems at concrete inputs.
--
-- Numbers: a count is a natural number; a measure in milliseconds is a `Number`, an integer, NaN or
-- an infinity, since a date that does not parse gives NaN. A coverage is in ten thousandths. The numbers
-- of ids are doubles, exact up to 2^53 and rounded beyond (Prelude/Double); no other number of the
-- modelled code comes near that bound.
--
-- Loops: every loop of the modelled code runs over a list or up to a bound and is structural
-- recursion. The `while` of runLoop may wait for tickets without end, so it runs over the list of its
-- rounds; RunLoop/Progress bounds those that do not wait. The polling of the checks counts down the
-- polls that are left, which start at the source's own bound, and so do the attempts of ExecutePlan,
-- the rounds of ReviewStep and the calls of Skill; no fuel is chosen here.
--
-- Parameters: JSON.parse, Date.parse, and the answers of git, gh, the models and the guards are
-- arguments. So are the functions that normalise, cut or search the output of a verifier and the
-- findings of a reviewer, which stand on regular expressions.
--
-- Not modelled: the parsers of a patch and of a frontmatter, the step that asks for the steward's
-- proposal (src/backlogRefinementStep.ts), child processes, timers and files (src/runners.ts,
-- src/git.ts, the store on disk), prompts to language models and, but for the steward's proposal, the
-- parsing of their answers, the command line, installation and reports. Log lines are left out.

pub mod Prelude
pub mod Json
pub mod LoopState
pub mod RunState
pub mod RunStore
pub mod LoopKernel
pub mod Budget
pub mod BudgetGuard
pub mod MergeGate
pub mod Autonomy
pub mod MergeGateStep
pub mod Ci
pub mod ExecutePlan
pub mod ReviewStep
pub mod TicketOutcomes
pub mod TicketFailure
pub mod TicketRun
pub mod Queue
pub mod Coverage
pub mod Resume
pub mod RunLoop
pub mod TicketIds
pub mod TicketAllocation
pub mod StructuralRefinement
pub mod ApplyRefinement
pub mod StructuralIntegrity
pub mod Retention
pub mod Skill
pub mod SkillRegistry
pub mod RefineTickets
pub mod Checked
pub mod SkillManifest
pub mod Tests
