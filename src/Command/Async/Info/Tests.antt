-- ===== src/Command/Async/Info/Tests.antt =====
-- A reply to INFO.
use redisson_rs.Base.{some, List, All, [], ◌∷◌, ◌≡◌, refl}
use redisson_rs.Base.Int.{pos}
use redisson_rs.Glob.{chars}
use redisson_rs.Command.Async.Info.{
  parse_info_str, parse_info_i64, split, strip_prefix, parse_digits, parse_i64,
}
use redisson_rs.Command.Async.Info.RoundTrip.{
  Line, IsLine, field, heading, blank, render, parse_info_str-render,
}

abbrev reply : List Line
reply =
    heading (chars "Replication")
    ∷ field (chars "role") (chars "master")
    ∷ field (chars "connected_slaves") (chars "12")
    ∷ blank
    ∷ heading (chars "Persistence")
    ∷ field (chars "aof_enabled") (chars "1")
    ∷ []

reply_lines : All IsLine reply
reply_lines = (
  refl,
  (
    (refl, refl, refl, refl),
    ((refl, refl, refl, refl), (tt, (refl, ((refl, refl, refl, refl), tt)))),
  ),
)

slaves_read : parse_info_i64 (render reply) (chars "connected_slaves") ≡ pos 12
unfolding split strip_prefix parse_digits parse_i64
slaves_read = refl

parse_info_str-render_example :
    parse_info_str (render reply) (chars "aof_enabled") ≡ some (chars "1")
parse_info_str-render_example = parse_info_str-render reply (chars "aof_enabled") refl reply_lines
