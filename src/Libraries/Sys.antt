-- ===== src/Libraries/Sys.antt =====
-- lib_src/sys/mln_lang_sys.c: the methods that the sys library registers, in the order of
-- mln_lang_sys, which is not that of the handlers in the file.
use melang.Base.{List, [], ◌∷◌}
use melang.Register.{Method, member}

abbrev pub sys_size_handler : Method
sys_size_handler = record { place = member; name = "size"; params = "array" ∷ [] }

abbrev pub sys_keys_handler : Method
sys_keys_handler = record { place = member; name = "keys"; params = "array" ∷ [] }

abbrev pub sys_merge_handler : Method
sys_merge_handler = record { place = member; name = "merge"; params = "array1" ∷ "array2" ∷ [] }

abbrev pub sys_diff_handler : Method
sys_diff_handler = record { place = member; name = "diff"; params = "arr1" ∷ "arr2" ∷ [] }

abbrev pub sys_key_diff_handler : Method
sys_key_diff_handler = record { place = member; name = "key_diff"; params = "arr1" ∷ "arr2" ∷ [] }

abbrev pub sys_has_handler : Method
sys_has_handler = record { place = member; name = "has"; params = "owner" ∷ "thing" ∷ [] }

abbrev pub sys_is_int_handler : Method
sys_is_int_handler = record { place = member; name = "is_int"; params = "var" ∷ [] }

abbrev pub sys_is_real_handler : Method
sys_is_real_handler = record { place = member; name = "is_real"; params = "var" ∷ [] }

abbrev pub sys_is_str_handler : Method
sys_is_str_handler = record { place = member; name = "is_str"; params = "var" ∷ [] }

abbrev pub sys_is_nil_handler : Method
sys_is_nil_handler = record { place = member; name = "is_nil"; params = "var" ∷ [] }

abbrev pub sys_is_bool_handler : Method
sys_is_bool_handler = record { place = member; name = "is_bool"; params = "var" ∷ [] }

abbrev pub sys_is_obj_handler : Method
sys_is_obj_handler = record { place = member; name = "is_obj"; params = "var" ∷ [] }

abbrev pub sys_is_func_handler : Method
sys_is_func_handler = record { place = member; name = "is_func"; params = "var" ∷ [] }

abbrev pub sys_is_array_handler : Method
sys_is_array_handler = record { place = member; name = "is_array"; params = "var" ∷ [] }

abbrev pub sys_int_handler : Method
sys_int_handler = record { place = member; name = "int"; params = "var" ∷ [] }

abbrev pub sys_bool_handler : Method
sys_bool_handler = record { place = member; name = "bool"; params = "var" ∷ [] }

abbrev pub sys_real_handler : Method
sys_real_handler = record { place = member; name = "real"; params = "var" ∷ [] }

abbrev pub sys_str_handler : Method
sys_str_handler = record { place = member; name = "str"; params = "var" ∷ [] }

abbrev pub sys_obj_handler : Method
sys_obj_handler = record { place = member; name = "obj"; params = "var" ∷ [] }

abbrev pub sys_array_handler : Method
sys_array_handler = record { place = member; name = "array"; params = "var" ∷ [] }

abbrev pub sys_type_handler : Method
sys_type_handler = record { place = member; name = "type"; params = "var" ∷ [] }

abbrev pub sys_getproperty_handler : Method
sys_getproperty_handler = record { place = member; name = "getter"; params = "obj" ∷ "prop" ∷ [] }

abbrev pub sys_setproperty_handler : Method
sys_setproperty_handler = record {
  place = member;
  name = "setter";
  params = "obj" ∷ "prop" ∷ "val" ∷ [];
}

abbrev pub sys_remove_handler : Method
sys_remove_handler = record { place = member; name = "remove"; params = "path" ∷ [] }

abbrev pub sys_mkdir_handler : Method
sys_mkdir_handler = record { place = member; name = "mkdir"; params = "path" ∷ "mode" ∷ [] }

abbrev pub sys_exist_handler : Method
sys_exist_handler = record { place = member; name = "exist"; params = "path" ∷ [] }

abbrev pub sys_lsdir_handler : Method
sys_lsdir_handler = record { place = member; name = "lsdir"; params = "path" ∷ [] }

abbrev pub sys_isdir_handler : Method
sys_isdir_handler = record { place = member; name = "isdir"; params = "path" ∷ [] }

abbrev pub sys_time_handler : Method
sys_time_handler = record { place = member; name = "time"; params = [] }

abbrev pub sys_utctime_handler : Method
sys_utctime_handler = record { place = member; name = "utctime"; params = "tm" ∷ [] }

abbrev pub sys_cron_handler : Method
sys_cron_handler = record { place = member; name = "cron"; params = "exp" ∷ "timestamp" ∷ [] }

abbrev pub sys_exec_handler : Method
sys_exec_handler = record {
  place = member;
  name = "exec";
  params = "cmd" ∷ "bufsize" ∷ "pid" ∷ "user" ∷ "group" ∷ "qname" ∷ [];
}

abbrev pub sys_print_handler : Method
sys_print_handler = record { place = member; name = "print"; params = "var" ∷ [] }

abbrev pub sys_msleep_handler : Method
sys_msleep_handler = record { place = member; name = "msleep"; params = "msec" ∷ [] }

abbrev pub sys_path_handler : Method
sys_path_handler = record { place = member; name = "path"; params = "path" ∷ [] }

abbrev pub sys_methods : List Method
sys_methods =
    sys_size_handler ∷ sys_keys_handler ∷ sys_merge_handler ∷ sys_diff_handler
    ∷ sys_key_diff_handler ∷ sys_has_handler ∷ sys_is_int_handler ∷ sys_is_real_handler
    ∷ sys_is_str_handler ∷ sys_is_nil_handler ∷ sys_is_bool_handler ∷ sys_is_obj_handler
    ∷ sys_is_func_handler ∷ sys_is_array_handler ∷ sys_int_handler ∷ sys_bool_handler
    ∷ sys_real_handler ∷ sys_str_handler ∷ sys_obj_handler ∷ sys_array_handler ∷ sys_type_handler
    ∷ sys_getproperty_handler ∷ sys_setproperty_handler ∷ sys_remove_handler ∷ sys_mkdir_handler
    ∷ sys_exist_handler ∷ sys_lsdir_handler ∷ sys_isdir_handler ∷ sys_time_handler
    ∷ sys_utctime_handler ∷ sys_cron_handler ∷ sys_exec_handler ∷ sys_print_handler
    ∷ sys_msleep_handler ∷ sys_path_handler ∷ []
