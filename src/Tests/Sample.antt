-- ===== src/Tests/Sample.antt =====
-- Modules with one stereo input and one stereo output, whose parameter is a number, and a workspace of
-- two of them, the second fed by the first.
use mixlab.Prelude.{ℕ, List, [], ◌∷◌, Option, none, some, refl, ◌==◌, if◌then◌else◌}
use mixlab.Protocol.{
  Terminal, stereo, InputId, OutputId, default_geometry, create_module, create_connection,
  delete_module, WorkspaceOp,
}
use mixlab.Engine.Host.{ModuleHost, HostLaws}
use mixlab.Engine.Workspace.{Workspace}
use mixlab.Engine.Update.{Engine, WorkspaceMessage}

abbrev stereo_line : Terminal
stereo_line = record { label = none; line_type = stereo }

abbrev pub gain_host : ModuleHost
gain_host = record {
  Params = ℕ;
  Indication = ℕ;
  Module = ℕ;
  create = λ p. (p, 0);
  params = λ m. m;
  update = λ m p. if p == 99 then none else some (p, none);
  inputs = λ m. stereo_line ∷ [];
  outputs = λ m. stereo_line ∷ [];
}

pub gain_laws : HostLaws gain_host
gain_laws = record { created = λ p. refl; kept = λ m p m' i h. (refl, refl) }

abbrev pub empty_workspace : Workspace gain_host
empty_workspace = record {
  module_seq = 0;
  modules = [];
  geometry = [];
  connections = [];
  indications = [];
}

abbrev pub start : Engine gain_host
start = record {
  session_seq = 0;
  workspace = empty_workspace;
  persisted = record { module_seq = 0; modules = [] };
  log = [];
}

abbrev pub second_input : InputId
second_input = record { module_id = 2; index = 0 }

abbrev pub first_output : OutputId
first_output = record { module_id = 1; index = 0 }

abbrev message : ℕ → WorkspaceOp ℕ ℕ → ℕ × WorkspaceMessage gain_host
message n op = (1, record { sequence = n; op = op })

-- Two modules, a connection, and the first module deleted again.
abbrev pub history : List (ℕ × WorkspaceMessage gain_host)
history =
    message 1 (create_module 5 default_geometry)
    ∷ message 2 (create_module 6 default_geometry)
    ∷ message 3 (create_connection second_input first_output)
    ∷ message 4 (delete_module 1)
    ∷ []

abbrev pub engine_or : {A : Type 0} → A → Option A → A
engine_or d none = d
engine_or d (some a) = a
