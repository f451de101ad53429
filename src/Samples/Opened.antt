-- ===== src/Samples/Opened.antt =====
-- What the runs of the samples compute with, named once.
use kb_pm.CString.{eq_str, starts_with, strcpy, atoi, show_nat, show_int, digits_from, value_from}
use kb_pm.Utils.{is_number, is_delimiter, strtok_all, copy_tokens, str_split}
use kb_pm.Client.{
  receive, communicate_with_server, communicate_two_signals_with_server, ping_server, when_online,
  unless_error, show_status, report, ask_all, ask_about, last_part, new_process, start_process,
}
use kb_pm.Proc.{
  parse_proc_status_val_by_tag, get_child_pids, find_tag, fgets_all, cut_lines, chop, skip_to_digit,
  visit_entries, visit_entry, add_if_child, push_pid,
}
use kb_pm.Process.Kill.{exec_process, kill_process, kill_process_by_pid, kill_each, get_mem_by_pid}
use kb_pm.Process.Table.{
  count_named, get_process_list_count, index_from, last_index_from, shift_down, shift_from,
  del_process_by_app_name,
}
use kb_pm.Process.Json.{
  copy_string, with_item, parse_process_cjson, parse_process_cjson_with_status, parse_process,
  parse_items, parse_list_by, parse_process_list, parse_process_list_with_status,
  parse_process_list_from_path, create_process_cjson, create_process_cjson_with_status,
  create_items, print_into, create_process_list_json_str, create_process_json_str,
  create_items_with_status, create_process_list_json_str_with_status,
}
use kb_pm.Server.Lookup.{
  get_process_id, parse_request, parse_process_and_process_type, copy_slot, get_pos_in_process_list,
  get_error_response,
}
use kb_pm.Server.Control.{
  after_fork, server_start_process, server_stop_process, server_restart_process,
}
use kb_pm.Server.Requests.{
  on_slot, append_slot, on_listed, stop_listed, start_listed, start_new, restart_listed,
  remove_listed, server_remove_process, server_start_process_with_cmd,
  server_start_process_and_get_response, server_stop_process_and_get_response,
  server_restart_process_and_get_response, server_remove_process_and_get_response, for_each_slot,
  server_start_all_process, server_stop_all_process, get_process_list_status, count_running,
  get_running_process_count,
}
use kb_pm.Server.Wire.{c_string, read_into, clear, pong_and_receive_data}
use kb_pm.Server.Service.{
  save_process_list, is_command, answer, serve_client, revive, reap, before_wait, await_child,
  start_saved, service_start,
}
use kb_pm.Server.Contract.{target}
use kb_pm.Server.Daemon.{
  in_home, get_config_path, get_config_dir, create_config_file, ignore_signals, leave_parent,
  fork_and_leave, check_session, init_daemon, init_threads, service_clean,
}
use kb_pm.StatusTable.{
  put_field, status_field, uptime_field, memory_field, box_line, box_lines, turn_second, sub_ℤ,
  strlen_max, strlen_max_from, get_varible_strlen_max, repeat, rule_from, print_ch, print_top_line,
  print_mid_line, print_bot_line, styled, letters_from, print_box_letters, more_rows, print_rows,
  print_box, print_process_list_box,
}
use kb_pm.Samples.Documents.{
  lookup, get_field, add_field, add_item, item_at, size_of, string_of, int_of, show_str, show_value,
  show_fields, show_items, show_doc, read_bytes, read_str, read_value, read_fields, read_items,
  read_doc,
}

unfoldable pub opened : Unit {0}
unfolding is_delimiter strtok_all copy_tokens str_split receive communicate_with_server
    communicate_two_signals_with_server ping_server when_online unless_error show_status report
    ask_all ask_about last_part new_process start_process eq_str starts_with strcpy atoi show_nat
    show_int digits_from value_from is_number parse_proc_status_val_by_tag get_child_pids find_tag
    fgets_all cut_lines chop skip_to_digit visit_entries visit_entry add_if_child push_pid
    exec_process kill_process kill_process_by_pid kill_each get_mem_by_pid count_named
    get_process_list_count index_from last_index_from shift_down shift_from del_process_by_app_name
    copy_string with_item parse_process_cjson parse_process_cjson_with_status parse_process
    parse_items parse_list_by parse_process_list parse_process_list_with_status
    parse_process_list_from_path create_process_cjson create_process_cjson_with_status create_items
    print_into create_process_list_json_str create_process_json_str create_items_with_status
    create_process_list_json_str_with_status get_process_id parse_request
    parse_process_and_process_type copy_slot get_pos_in_process_list get_error_response after_fork
    server_start_process server_stop_process server_restart_process on_slot append_slot on_listed
    stop_listed start_listed start_new restart_listed remove_listed server_remove_process
    server_start_process_with_cmd server_start_process_and_get_response
    server_stop_process_and_get_response server_restart_process_and_get_response
    server_remove_process_and_get_response for_each_slot server_start_all_process
    server_stop_all_process get_process_list_status count_running get_running_process_count c_string
    read_into clear pong_and_receive_data save_process_list is_command answer serve_client revive
    reap before_wait await_child start_saved service_start target lookup get_field add_field
    add_item item_at size_of string_of int_of show_str show_value show_fields show_items show_doc
    put_field status_field uptime_field memory_field box_line box_lines turn_second sub_ℤ strlen_max
    strlen_max_from get_varible_strlen_max repeat rule_from print_ch print_top_line print_mid_line
    print_bot_line styled letters_from print_box_letters more_rows print_rows print_box
    print_process_list_box in_home get_config_path get_config_dir create_config_file ignore_signals
    leave_parent fork_and_leave check_session init_daemon init_threads service_clean read_bytes
    read_str read_value read_fields read_items read_doc
opened = tt
