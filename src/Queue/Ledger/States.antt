-- ===== src/Queue/Ledger/States.antt =====
-- Where the claim ledger keeps its files (runtime/transport/claim_ledger.py): the candidates for a state
-- root and the choice among them. The environment, the paths of pathlib and what the file system lets the
-- process do are the fields of `Process`; a path is its normalised text.
use paa_platform.Prelude.{
  String, Bool, true, false, not, ◌&&◌, Option, none, some, List, [], ◌∷◌, ◌++◌, map, member, when,
  named, strip, if◌then◌else◌,
}

pub record Process : Type 0 where
  -- The variable FRACTAL_CORE_HANDOFF_STATE_DIR, and what `git rev-parse` prints where it succeeds.
  pub configured : Option String
  pub toplevel : Option String
  pub home : String
  pub cwd : String
  -- `Path(text)`, `path / text`, `path.parent`, `path.expanduser()`
  pub path : String → String
  pub slash : String → String → String
  pub parent : String → String
  pub expanduser : String → String
  -- Whether `path.exists()`, and which steps of the probe of a directory go through.
  pub exists : String → Bool
  pub makes_dir : String → Bool
  pub writes_probe : String → Bool
  pub unlinks_probe : String → Bool
  -- The order of the file names that two claim ids have.
  pub name_le : String → String → Bool

pub record CandidateInfo : Type 0 where
  pub path : String
  pub source : String
  pub writable : Bool

-- What `resolve_active_state_root` returns, or the error that it raises.
pub data StateRoot : Type 0 where
  active : String → String → List CandidateInfo → StateRoot
  configured_not_writable : List (String × String) → StateRoot
  none_writable : List CandidateInfo → StateRoot

module _ (p : Process) where
  abbrev git_root_of : Option String → Option String
  git_root_of none = none
  git_root_of (some s) = some (p.path s)

  abbrev stripped : Option String → Option String
  stripped none = none
  stripped (some s) = named (some (strip s))

  abbrev pub get_git_root : Option String
  get_git_root = git_root_of (stripped p.toplevel)

  abbrev repo_root : Option String → String
  repo_root none = p.cwd
  repo_root (some r) = r

  abbrev git_candidate : Option String → List (String × String)
  git_candidate none = []
  git_candidate (some r) = (p.slash r ".codex-state/fractal-core-handoff", "git-root") ∷ []

  -- The candidates where none is configured; the last one is left out when it is there already.
  abbrev pub default_candidates : List (String × String)
  default_candidates =
      let known : List (String × String) =
        (
          p.slash (repo_root get_git_root) ".project/data/paa/queue-state/fractal-core-handoff",
          "repo-runtime",
        )
        ∷ (p.slash p.home ".codex/state/fractal-core-handoff", "home")
        ∷ git_candidate get_git_root in
      let cwd_root = p.slash p.cwd ".codex-state/fractal-core-handoff" in
      known ++ when (not (member cwd_root (map (λ c. c.0) known))) (cwd_root, "cwd")

  unfoldable pub state_root_candidates : List (String × String)
  state_root_candidates = elim (named p.configured) [
    | some e ↦ (p.expanduser (p.path e), "env:FRACTAL_CORE_HANDOFF_STATE_DIR") ∷ []
    | none ↦ default_candidates
  ]

  -- The loop of `unique_state_root_candidates`, with the paths seen.
  unfoldable pub unique_from : List String → List (String × String) → List (String × String)
  unique_from seen [] = []
  unique_from seen (c ∷ cs) = elim (member (p.expanduser c.0) seen) [
    | true ↦ unique_from seen cs
    | false ↦ (p.expanduser c.0, c.1) ∷ unique_from (p.expanduser c.0 ∷ seen) cs
  ]

  unfoldable pub unique_state_root_candidates : List (String × String)
  unfolding unique_from state_root_candidates
  unique_state_root_candidates = unique_from [] state_root_candidates

  abbrev pub path_is_writable_dir : String → Bool
  path_is_writable_dir path = p.makes_dir path && (p.writes_probe path && p.unlinks_probe path)

  abbrev pub info_of : String × String → CandidateInfo
  info_of c = record { path = c.0; source = c.1; writable = path_is_writable_dir c.0 }

  -- The loop of `resolve_active_state_root`, with the information collected, and what stands after it.
  unfoldable pub resolve_from : List CandidateInfo → List (String × String) → StateRoot
  resolve_from info [] = elim (named p.configured) [
    | some e ↦ configured_not_writable unique_state_root_candidates
    | none ↦ none_writable info
  ]
  resolve_from info (c ∷ cs) =
      let infos = info ++ info_of c ∷ [] in
      let rest = resolve_from infos cs in
      if path_is_writable_dir c.0 then active c.0 c.1 infos else rest

  unfoldable pub resolve_active_state_root : StateRoot
  unfolding resolve_from
  resolve_active_state_root = resolve_from [] unique_state_root_candidates

  abbrev pub claims_dir : String → String
  claims_dir root = p.slash root "claims"

  -- The roots that a claim is looked for under.
  abbrev pub searched_roots : List String
  searched_roots = map (λ c. c.0) unique_state_root_candidates
