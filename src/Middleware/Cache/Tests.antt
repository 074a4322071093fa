-- ===== src/Middleware/Cache/Tests.antt =====
-- The laws of the cache middleware at a concrete configuration and store.
use webpipe.Base.{ℕ, String, true, Option, none, some, List, [], ◌∷◌, ◌≡◌, refl, lookup}
use webpipe.Base.Text.{format, split, split_once, trim, is_whitespace}
use webpipe.Base.Effect.{ok}
use webpipe.Json.{Value, null, string, object, field, end}
use webpipe.Executor.Modules.{empty}
use webpipe.Executor.Context.{PipelineContext, new_context, new_pipeline_context, PipelineOutput}
use webpipe.Executor.Env.{ExecutionEnv, Services}
use webpipe.Ast.{Regular, quoted}
use webpipe.Executor.Run.{run_pending_cache_saves}
use webpipe.Executor.Example.{unknown}
use webpipe.Executor.Step.{StepState}
use webpipe.Runtime.Clock.{from_secs}
use webpipe.Runtime.Lru.{found}
use webpipe.Runtime.Lru.Bounded.{Bounded, bounded, bounded_lem}
use webpipe.Runtime.Cache.{CacheEntry, CacheStore, put_response}
use webpipe.Config.{ConfigManager, resolve_config_as_json}
use webpipe.Middleware.RateLimit.{split_all}
use webpipe.Middleware.Cache.{
  parse_cfg, set_cfg, set_cfg_parts, cache_key, render_key_template, effective_enabled,
  effective_ttl, execute,
}
use webpipe.Middleware.Cache.Decides.{Decision, execute_decides}

abbrev print : Value → String
print v = ""

abbrev hash_text : List String → String
hash_text parts = format parts

abbrev unset : String → Option String
unset _ = none

abbrev manager : ConfigManager
manager = record { configs = [] }

abbrev config : String
config = "ttl: 30, keyTemplate: page-{path}"

abbrev pipe : PipelineContext
pipe = new_pipeline_context (object (field "path" (string "/home") end))

abbrev entry : CacheEntry
entry = record {
  response = record { body = null; content_type = "text/html"; status_code = none };
  fresh_until = from_secs 10;
  stale_until = from_secs 40;
  refresh_started = none;
  size_bytes = 4;
}

abbrev store : CacheStore (Bounded CacheEntry)
store = record {
  inner = (10, ("page-/home", entry) ∷ []);
  default_ttl_secs = 60;
  max_entry_size = 100;
  max_total_size = 1000;
  swr_grace_secs = 30;
  refresh_takeover_secs = 30;
  current_size = 4;
}

abbrev no_entries : CacheStore (Bounded CacheEntry)
no_entries = record store { inner = (10, []); current_size = 0 }

abbrev size_seven : Value → ℕ
size_seven v = 7

abbrev services : Services (CacheStore (Bounded CacheEntry))
services = record {
  call = λ name args config target s. some (s, ok none);
  get_behavior = λ name. none;
  evaluate = λ filter v. ok v;
  put_response = put_response bounded size_seven 3;
  clear_refresh = λ key w. w;
  micros = λ w. 0;
  parse_names = λ s. none;
}

abbrev env : ExecutionEnv (CacheStore (Bounded CacheEntry))
env = record {
  variables = [];
  named_pipelines = [];
  module_registry = empty;
  environment = none;
  services = services;
}

abbrev page : PipelineOutput
page = record { state = string "<p>"; content_type = "text/html"; status_code = some 200 }

enabled : effective_enabled unset manager config ≡ true
unfolding effective_enabled parse_cfg set_cfg_parts set_cfg split_all split split_once trim
    is_whitespace resolve_config_as_json lookup
enabled = refl

key : cache_key print hash_text config pipe ≡ "page-/home"
unfolding cache_key parse_cfg set_cfg_parts set_cfg split_all split split_once trim is_whitespace
    render_key_template
key = refl

execute_decides_example :
    let (_, pipe', ctx') =
      execute bounded print hash_text unset manager 3 config (store, pipe, new_context ℕ) in
    Decision 3 30
      (cache_key print hash_text config pipe)
      (effective_ttl unset manager config)
      pipe
      pipe'
      (found bounded (cache_key print hash_text config pipe) store.inner)
    × (ctx'.metadata.cache_policy
        ≡ some (record {
          enabled = true;
          ttl = effective_ttl unset manager config;
          key_template = (parse_cfg config).key_tpl;
        }))
execute_decides_example =
    execute_decides print hash_text unset manager bounded bounded_lem 3 config store pipe
      (new_context ℕ) enabled

-- The store after the first request, and the pipeline of the next one: a cache step, and a step whose
-- answer would be another page.
abbrev saved : CacheStore (Bounded CacheEntry)
saved =
    let (store', pipe', _) =
      execute bounded print hash_text unset manager 3 config (no_entries, pipe, new_context ℕ) in
    run_pending_cache_saves env pipe'.pending_cache_saves page.state page.content_type
      page.status_code store'

abbrev env_later : ExecutionEnv (CacheStore (Bounded CacheEntry))
env_later = record env {
  services = record services {
    call = λ name args config target (sys, pipe).
        let (store', pipe', req') =
          execute bounded print hash_text unset manager (from_secs 20) config
            (sys.world, pipe, sys.req) in
        some ((record { world = store'; req = req' }, pipe'), ok none);
  };
}

abbrev cache_step : Regular
cache_step = record {
  name = "cache";
  args = [];
  config = config;
  config_type = quoted;
  config_present = true;
  condition = none;
  parsed_join_targets = none;
  location = unknown;
}

abbrev later_state : StepState (CacheStore (Bounded CacheEntry))
later_state = record {
  sys = record { world = saved; req = new_context (CacheStore (Bounded CacheEntry)) };
  pipe = pipe;
  output = record { state = null; content_type = "application/json"; status_code = none };
}
