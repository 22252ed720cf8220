-- ===== src/Config/Tests.antt =====
-- Database URLs at concrete inputs.
use aiot_powerguard.Prelude.{◌≡◌, refl, Bool, false, list_eq, option_eq, ℕ_discrete}
use aiot_powerguard.Text.{Text, codes}
use aiot_powerguard.Config.{
  file, refused, strip_prefix, rest_of_line, span_driver, url_parts, check_tail, check_rest,
  check_parts, parse_sqlite_url,
}
use aiot_powerguard.Config.SqliteUrl.{NamesFile, parse_sqlite_url-NamesFile}

abbrev no_dirs : Text → Bool
no_dirs _ = false

data_file :
    parse_sqlite_url no_dirs (codes "sqlite+pysqlite:///data/p.db") ≡ file (codes "data/p.db")
unfolding parse_sqlite_url check_parts check_rest check_tail url_parts span_driver rest_of_line
    strip_prefix list_eq option_eq ℕ_discrete
data_file = refl

host_refused : parse_sqlite_url no_dirs (codes "sqlite://host/p.db") ≡ refused
unfolding parse_sqlite_url check_parts check_rest check_tail url_parts span_driver rest_of_line
    strip_prefix list_eq option_eq ℕ_discrete
host_refused = refl

parse_sqlite_url-NamesFile_example :
    NamesFile no_dirs (codes "sqlite+pysqlite:///data/p.db") (codes "data/p.db")
parse_sqlite_url-NamesFile_example =
    parse_sqlite_url-NamesFile no_dirs (codes "sqlite+pysqlite:///data/p.db") (codes "data/p.db")
      data_file
