-- ===== src/Winrm/Script.antt =====
-- `getFuncScript`: the text that defines the functions and the environment of a session.
use mathlib.Core.List.{reverse}
use cluster_api_provider_scv.Base.{Str, codes, List, [], ◌∷◌, ◌++◌, ◌==◌, if◌then◌else◌}
use cluster_api_provider_scv.Api.Meta.{message, put_key}
use cluster_api_provider_scv.Api.Call.{pure, raise, asks, exchange, ◌>>=◌, check, fold_each}
use cluster_api_provider_scv.Api.Provider.{ScvmmProviderSpec}
use cluster_api_provider_scv.Scvmm.Escape.{escape_single_quotes}
use cluster_api_provider_scv.Winrm.Event.{Env, Work, note, read_script}

-- `filepath.Base` of a path that does not end in a slash: what follows the last one.
base_from : Str → Str → Str
base_from s [] = s
base_from s (c ∷ rest) = base_from (if c == b'/' then rest else s) rest

unfoldable pub base : Str → Str
unfolding base_from
base s = base_from s s

-- What follows the first dot.
after_dot : Str → Str → Str
after_dot whole [] = whole
after_dot whole (c ∷ rest) = if c == b'.' then rest else after_dot whole rest

-- `strings.TrimSuffix(name, filepath.Ext(name))`
unfoldable pub without_ext : Str → Str
unfolding after_dot
without_ext name = reverse (after_dot (reverse name) (reverse name))

unfoldable pub script_name : Str → Str
unfolding base without_ext
script_name file = without_ext (base file)

line_end : Str
line_end = 10 ∷ []

unfoldable pub preferences : Str
unfolding line_end
preferences =
    codes "$ProgressPreference = 'SilentlyContinue'"
    ++ (line_end
        ++ (codes "$WarningPreference = 'SilentlyContinue'"
            ++ (line_end
                ++ (codes "$VerbosePreference = 'SilentlyContinue'"
                    ++ (line_end
                        ++ (codes "$InformationPreference = 'SilentlyContinue'"
                            ++ (line_end
                                ++ (codes "$DebugPreference = 'SilentlyContinue'"
                                    ++ (line_end ++ line_end)))))))))

unfoldable pub env_lines : List (Str × Str) → Str
unfolding line_end
env_lines [] = []
env_lines ((name, value) ∷ vars) =
    codes "${env:"
    ++ (name
        ++ (codes "} = '"
            ++ (escape_single_quotes value ++ (codes "'" ++ (line_end ++ env_lines vars)))))

unfoldable pub function_texts : List (Str × Str) → Str
unfolding line_end
function_texts [] = []
function_texts ((name, content) ∷ scripts) =
    line_end
    ++ (codes "function "
        ++ (name
            ++ (codes " {"
                ++ (line_end
                    ++ (content
                        ++ (codes "}" ++ (line_end ++ (line_end ++ function_texts scripts))))))))

unfoldable pub add_functions : List (Str × Str) → List (Str × Str) → List (Str × Str)
add_functions [] scripts = scripts
add_functions ((name, content) ∷ extra) scripts = add_functions extra (put_key name content scripts)

unfoldable pub script_text : Env → ScvmmProviderSpec → List (Str × Str) → Str
unfolding preferences env_lines function_texts add_functions
script_text env provider scripts =
    preferences
    ++ (env_lines (env.order provider.env)
        ++ (env_lines (env.order provider.sensitive_env)
            ++ function_texts (env.order (add_functions provider.extra_functions scripts))))

-- Of an error that `%v` prints, only the text in front is kept.
read_script_file : Env → Str → List (Str × Str) → Work (List (Str × Str))
unfolding script_name
read_script_file env file scripts =
    check (exchange (λ w. env.read_file w.log file) (note (read_script file)))
      (λ e. raise (message (codes "error reading script file " ++ file)))
      (λ content. pure (put_key (script_name file) content scripts))

unfoldable pub get_func_script : Env → ScvmmProviderSpec → Work Str
unfolding read_script_file script_text
get_func_script env provider =
    check (asks (λ w. env.glob (env.script_dir ++ codes "/*.ps1")))
      (λ e. raise (message (codes "error scanning script dir " ++ env.script_dir)))
      (λ files. do
        scripts ← fold_each files [] (read_script_file env)
        pure (script_text env provider scripts))
