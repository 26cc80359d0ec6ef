-- ===== src/Plugins/Runs.antt =====
-- A run as a sequence of steps, and that the loop follows it.
use ultranix_mcp.Prelude.{
  nat_eq, string_eq, length, ◌⧺◌, Result, ok, err, ℕ, suc, ◌+◌, String, ◌≡◌, refl, ap, subst, true,
  false, Option, some, List, [], ◌∷◌, ◌++◌, arith,
}
use ultranix_mcp.Prelude.Dict.{Dict}
use ultranix_mcp.Json.{Value, Members}
use ultranix_mcp.Tools.Replies.{Reply, success, failure, ErrorData}
use ultranix_mcp.Plugins.Template.{ParamError, substitute_args}
use ultranix_mcp.Plugins.Manifest.{Step, PluginManifest}
use ultranix_mcp.Plugins.Binding.{bind_params}
use ultranix_mcp.Plugins.Running.{
  StepResult, StepsRun, step_result, push_result, after_call, after_args, run_steps, step_error,
  step_dispatch_error, args_error, first_text, run_reply, run_bound, run_manifest, report,
  invalid_params, param_message,
}
use ultranix_mcp.Plugins.Faults.{
  IsStepError, IsRefusal, IsArgsError, step_error-IsStepError, args_error-IsArgsError,
  step_dispatch_error-IsRefusal,
}

module _ {ℓ} {S : Type ℓ} (call : String → Members → S → S × Reply) (to_json : Value → String)
    (debug : String → String) (m : PluginManifest) (bound : Dict Value) where
  -- Steps that succeed one after the other, from a state to a state, with what is kept of them.
  pub data Ran : ℕ → List Step → S → List StepResult → S → Type ℓ where
    ran_none : {i : ℕ} {s : S} → Ran i [] s [] s
    ran_step :
        {i : ℕ} {step : Step} {steps : List Step} {s mid end_ : S} {results : List StepResult}
        {args : Members} {text : Option String}
        → substitute_args to_json bound step.args ≡ ok args
        → call step.tool args s ≡ (mid, success false text)
        → Ran (suc i) steps mid results end_
        → Ran i (step ∷ steps) s (step_result i step text ∷ results) end_

  -- A step that ends the run, with its error and the state that it leaves.
  pub data Stops : ℕ → Step → S → ErrorData → S → Type ℓ where
    bad_args :
        {i : ℕ} {step : Step} {s : S} {e : ParamError} {out : ErrorData}
        → substitute_args to_json bound step.args ≡ err e
        → IsArgsError debug m i step.tool e out
        → Stops i step s out s
    tool_failed :
        {i : ℕ} {step : Step} {s end_ : S} {args : Members} {text : Option String} {out : ErrorData}
        → substitute_args to_json bound step.args ≡ ok args
        → call step.tool args s ≡ (end_, success true text)
        → IsStepError debug m i step.tool (first_text text) out
        → Stops i step s out end_
    refused :
        {i : ℕ} {step : Step} {s end_ : S} {args : Members} {e out : ErrorData}
        → substitute_args to_json bound step.args ≡ ok args
        → call step.tool args s ≡ (end_, failure e)
        → IsRefusal debug m i step.tool e out
        → Stops i step s out end_

  pub record IsCut (i : ℕ) (steps : List Step) (s : S) (e : ErrorData) (end_ : S) : Type ℓ where
    pub before : List Step
    pub at_ : Step
    pub later : List Step
    pub results : List StepResult
    pub mid : S
    pub order : steps ≡ before ++ at_ ∷ later
    pub ran : Ran i before s results mid
    pub stops : Stops (i + length before) at_ mid e end_

  abbrev pub Follows : ℕ → List Step → S → S × StepsRun → Type ℓ
  Follows i steps s (end_, ok results) = Ran i steps s results end_
  Follows i steps s (end_, err e) = IsCut i steps s e end_

  module _ (i : ℕ) (step : Step) (steps : List Step) (s : S) {args : Members}
      (substituted : substitute_args to_json bound step.args ≡ ok args) where
    Follows-push :
        (mid : S) (text : Option String)
        → call step.tool args s ≡ (mid, success false text)
        → (out : S × StepsRun) → Follows (suc i) steps mid out
        → Follows i (step ∷ steps) s (push_result (step_result i step text) out)
    Follows-push mid text called (end_, ok results) h = ran_step substituted called h
    Follows-push mid text called (end_, err e) h = record {
      before = step ∷ h.before;
      at_ = h.at_;
      later = h.later;
      results = step_result i step text ∷ h.results;
      mid = h.mid;
      order = ap (λ l. step ∷ l) h.order;
      ran = ran_step substituted called h.ran;
      stops = subst (λ n. Stops n h.at_ h.mid e end_) (omega arith) h.stops;
    }

    at_once : (e : ErrorData) (end_ : S) → Stops i step s e end_ → IsCut i (step ∷ steps) s e end_
    at_once e end_ h = record {
      before = [];
      at_ = step;
      later = steps;
      results = [];
      mid = s;
      order = refl;
      ran = ran_none;
      stops = subst (λ n. Stops n step s e end_) (omega arith) h;
    }

    Follows-call :
        (rest : S → S × StepsRun)
        → ((t : S) → Follows (suc i) steps t (rest t))
        → (answer : S × Reply) → call step.tool args s ≡ answer
        → Follows i (step ∷ steps) s (after_call call to_json debug m i step rest answer)
    Follows-call rest h (mid, success false text) e = Follows-push mid text e (rest mid) (h mid)
    Follows-call rest h (mid, success true text) e =
        at_once (step_error debug m i step.tool (first_text text)) mid
          (tool_failed substituted e (step_error-IsStepError debug m i step.tool (first_text text)))
    Follows-call rest h (mid, failure fault) e =
        at_once (step_dispatch_error debug m i step.tool fault) mid
          (refused substituted e (step_dispatch_error-IsRefusal debug m i step.tool fault))

  Follows-args :
      (i : ℕ) (step : Step) (steps : List Step) (s : S) (rest : S → S × StepsRun)
      → ((t : S) → Follows (suc i) steps t (rest t))
      → (r : Result ParamError Members) → substitute_args to_json bound step.args ≡ r
      → Follows i (step ∷ steps) s (after_args call to_json debug m i step rest r s)
  Follows-args i step steps s rest h (ok args) e =
      Follows-call i step steps s e rest h (call step.tool args s) refl
  Follows-args i step steps s rest h (err fault) e = record {
    before = [];
    at_ = step;
    later = steps;
    results = [];
    mid = s;
    order = refl;
    ran = ran_none;
    stops =
        subst (λ n. Stops n step s (args_error debug m i step.tool fault) s) (omega arith)
          (bad_args e (args_error-IsArgsError debug m i step.tool fault));
  }

  -- A run that reports results has called every step in order, each with its substituted arguments
  -- and in the state that the one before left, and no call failed. A run that reports an error has
  -- done so for the steps before one that stops it, has the error of that step with its index, and
  -- ends in the state that this step left: no later step is called.
  pub run_steps_refines :
      (i : ℕ) (steps : List Step) (s : S)
      → Follows i steps s (run_steps call to_json debug m bound i steps s)
  unfolding run_steps
  run_steps_refines i [] s = ran_none
  run_steps_refines i (step ∷ steps) s =
      Follows-args i step steps s (λ t. run_steps call to_json debug m bound (suc i) steps t)
        (λ t. run_steps_refines (suc i) steps t) (substitute_args to_json bound step.args) refl

module _ {ℓ} {S : Type ℓ} (call : String → Members → S → S × Reply) (to_json : Value → String)
    (debug : String → String) (m : PluginManifest) where
  -- How a run of the manifest can end: it is refused before any step, it runs every step, or it is
  -- cut at one.
  pub data Ends (params : Dict Value) (s : S) : S × Reply → Type ℓ where
    not_bound :
        {e : ParamError}
        → bind_params m.params params ≡ err e
        → Ends params s (s, failure (invalid_params ("plugin_run: " ⧺ param_message debug e)))
    completed :
        {bound : Dict Value} {results : List StepResult} {end_ : S}
        → bind_params m.params params ≡ ok bound
        → Ran call to_json debug m bound 0 m.steps s results end_
        → Ends params s (end_, success false (some (to_json (report call to_json debug m results))))
    cut :
        {bound : Dict Value} {e : ErrorData} {end_ : S}
        → bind_params m.params params ≡ ok bound
        → IsCut call to_json debug m bound 0 m.steps s e end_
        → Ends params s (end_, failure e)

  Ends-steps :
      (params bound : Dict Value) (s : S)
      → bind_params m.params params ≡ ok bound
      → (out : S × StepsRun) → Follows call to_json debug m bound 0 m.steps s out
      → Ends params s (run_reply call to_json debug m out)
  Ends-steps params bound s e (end_, ok results) h = completed e h
  Ends-steps params bound s e (end_, err fault) h = cut e h

  Ends-bound :
      (params : Dict Value) (s : S) (r : Result ParamError (Dict Value))
      → bind_params m.params params ≡ r
      → Ends params s (run_bound call to_json debug m r s)
  Ends-bound params s (ok bound) e =
      Ends-steps params bound s e (run_steps call to_json debug m bound 0 m.steps s)
        (run_steps_refines call to_json debug m bound 0 m.steps s)
  Ends-bound params s (err fault) e = not_bound e

  -- A run of a manifest ends in one of three ways. Its parameters do not bind, and nothing is called.
  -- Or every step is called in order, each with its substituted arguments in the state that the one
  -- before left, none fails, and the reply reports them all. Or the steps before one succeed, this one
  -- has no arguments, fails or is refused, and no later step is called. The reply is then an error:
  -- PLUGIN_ERROR or the refusal's own code, with the step's index and tool in the message and in the
  -- data, or, for a parameter that was not supplied, InvalidParams with the parameter's name.
  pub run_manifest_refines :
      (params : Dict Value) (s : S) → Ends params s (run_manifest call to_json debug m params s)
  unfolding run_manifest
  run_manifest_refines params s = Ends-bound params s (bind_params m.params params) refl
