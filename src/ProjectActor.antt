-- ===== src/ProjectActor.antt =====
-- apps/api/src/lib/project-actor.ts: the actor of a request in a project, how it is resolved from
-- the request's user, read back from a value, and passed on as claims, headers and session variables.
pub mod Context
pub mod Claims
