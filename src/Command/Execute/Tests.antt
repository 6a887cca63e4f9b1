-- ===== src/Command/Execute/Tests.antt =====
-- Commands sent to an old server, which knows no read-only forms.
use redisson_rs.Base.{◌≡◌, refl, true, false, [], ◌∷◌, length, ok, err, none}
use redisson_rs.Command.Value.{text, Request, custom, Options, FredError}
use redisson_rs.Command.Samples.{plain_fred}
use redisson_rs.Command.RedisCommand.{RedisCommand, eval_sha_ro}
use redisson_rs.Command.Execute.{Answer, Pool, Net, send, fall_back, execute}
use redisson_rs.Command.Execute.Answers.{Served, execute-Served}

abbrev options : Options
options = record { max_attempts = none; timeout = none; cluster_node = none }

abbrev unknown : FredError
unknown = record { details = "ERR unknown command"; display = "ERR unknown command" }

abbrev answer_to : Request plain_fred → Answer plain_fred
answer_to (custom name hash args) = err unknown
answer_to _ = ok (text "done")

abbrev old_server : Pool plain_fred
old_server log s = answer_to s.request

abbrev fresh : Net plain_fred
fresh = record { sort_ro_supported = true; eval_sha_ro_supported = true; log = [] }

abbrev command : RedisCommand plain_fred
command = eval_sha_ro "0a" ("k" ∷ []) []

abbrev twice : Net plain_fred × Answer plain_fred
twice = execute old_server options command (execute old_server options command fresh).0

two_calls : (length twice.0.log ≡ 3) × (twice.1 ≡ ok (text "done"))
unfolding execute fall_back send
two_calls = (refl, refl)

execute-Served_example :
    Served old_server options command fresh (execute old_server options command fresh)
execute-Served_example = execute-Served old_server options command fresh

abbrev downgraded : Net plain_fred
downgraded = record { sort_ro_supported = false; eval_sha_ro_supported = false; log = [] }
