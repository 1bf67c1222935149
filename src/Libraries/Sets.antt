-- ===== src/Libraries/Sets.antt =====
-- lib_src/file and lib_src/mysql: the methods of the sets File and Mysql.
use melang.Base.{List, [], ◌∷◌}
use melang.Register.{Method, member}

abbrev pub file_add_open : Method
file_add_open = record { place = member; name = "open"; params = "path" ∷ "op" ∷ "prio" ∷ [] }

abbrev pub file_add_lseek : Method
file_add_lseek = record { place = member; name = "lseek"; params = "offset" ∷ "whence" ∷ [] }

abbrev pub file_add_read : Method
file_add_read = record { place = member; name = "read"; params = "nbytes" ∷ [] }

abbrev pub file_add_write : Method
file_add_write = record { place = member; name = "write"; params = "buf" ∷ [] }

abbrev pub file_add_close : Method
file_add_close = record { place = member; name = "close"; params = [] }

abbrev pub file_add_errmsg : Method
file_add_errmsg = record { place = member; name = "errmsg"; params = [] }

abbrev pub file_add_size : Method
file_add_size = record { place = member; name = "size"; params = [] }

-- The registrations of mln_lang_file, on the members of the set File, behind the fields fd and errno.
abbrev pub file_methods : List Method
file_methods =
    file_add_open ∷ file_add_lseek ∷ file_add_read ∷ file_add_write ∷ file_add_close
    ∷ file_add_errmsg ∷ file_add_size ∷ []

abbrev pub mysql_add_connect : Method
mysql_add_connect = record {
  place = member;
  name = "connect";
  params = "host" ∷ "port" ∷ "db" ∷ "username" ∷ "password" ∷ [];
}

abbrev pub mysql_add_close : Method
mysql_add_close = record { place = member; name = "close"; params = [] }

abbrev pub mysql_add_commit : Method
mysql_add_commit = record { place = member; name = "commit"; params = [] }

abbrev pub mysql_add_rollback : Method
mysql_add_rollback = record { place = member; name = "rollback"; params = [] }

abbrev pub mysql_add_error : Method
mysql_add_error = record { place = member; name = "error"; params = [] }

abbrev pub mysql_add_errno : Method
mysql_add_errno = record { place = member; name = "errno"; params = [] }

abbrev pub mysql_add_execute : Method
mysql_add_execute = record { place = member; name = "execute"; params = "sql" ∷ [] }

abbrev pub mysql_add_autocommit : Method
mysql_add_autocommit = record { place = member; name = "autocommit"; params = "mode" ∷ [] }

-- The registrations of mln_lang_mysql, on the members of the set Mysql, behind the field fd.
abbrev pub mysql_methods : List Method
mysql_methods =
    mysql_add_connect ∷ mysql_add_close ∷ mysql_add_commit ∷ mysql_add_rollback ∷ mysql_add_error
    ∷ mysql_add_errno ∷ mysql_add_execute ∷ mysql_add_autocommit ∷ []
