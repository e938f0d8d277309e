-- ===== src/Proto/Messages.antt =====
-- opp/OPCBasicProto.h: the fields of the daemon's messages, and common/OEnum.h at `FileType`.
use oldpart.Base.{ℕ, ◌-◌, ◌^◌}
use oldpart.Proto.Types.{Fields, Ty, pod, string, vector, object, stream, end, field}

-- the ids of the requests
abbrev pub omessage_list_files : ℕ
omessage_list_files = 1025

abbrev pub omessage_find_files : ℕ
omessage_find_files = 1026

abbrev pub omessage_cat_file : ℕ
omessage_cat_file = 1027

abbrev pub omessage_grep_file : ℕ
omessage_grep_file = 1028

abbrev pub omessage_grep_files : ℕ
omessage_grep_files = 1029

abbrev pub int32 : Ty
int32 = pod 4

-- `OMESSAGE_RESPONSE_FIELDS`, in front of more fields
abbrev pub response : Fields → Fields
response fs = field int32 (field string fs)

-- `FileType::type` is an enumeration of four bytes, `size_t` has eight.
abbrev pub file_info : Fields
file_info = field int32 (field string (field string (field (pod 8) (field (pod 8) end))))

abbrev pub list_files_request : Fields
list_files_request = field string end

abbrev pub find_files_request : Fields
find_files_request = field string (field string end)

abbrev pub cat_file_request : Fields
cat_file_request = field string (field int32 (field int32 end))

abbrev pub cat_file_response : Fields
cat_file_response = response (field stream end)

abbrev pub grep_file_request : Fields
grep_file_request = field string (field string (field int32 (field int32 end)))

abbrev pub grep_match_range : Fields
grep_match_range = field int32 (field int32 end)

abbrev pub selected_grep_line : Fields
selected_grep_line = field int32 (field int32 (field string end))

abbrev pub grep_files_request : Fields
grep_files_request = field string (field string (field string (field int32 (field int32 end))))

-- What the compiler fixes: `sizeof` of the classes that stand in vectors.
pub record Sizes : Type 0 where
  pub file_info_size : ℕ
  pub grep_match_range_size : ℕ
  pub grep_line_result_size : ℕ
  pub selected_grep_line_size : ℕ
  pub grep_files_result_size : ℕ

module _ (sizes : Sizes) where
  abbrev pub list_files_response : Fields
  list_files_response = response (field (vector sizes.file_info_size (object file_info)) end)

  abbrev pub find_files_response : Fields
  find_files_response = response (field (vector sizes.file_info_size (object file_info)) end)

  abbrev pub grep_line_result : Fields
  grep_line_result =
      field int32 (field (vector sizes.grep_match_range_size (object grep_match_range)) end)

  abbrev pub grep_file_response : Fields
  grep_file_response = response (
      field (vector sizes.grep_line_result_size (object grep_line_result))
        (field (vector sizes.selected_grep_line_size (object selected_grep_line)) end))

  abbrev pub grep_files_result : Fields
  grep_files_result = field string (field (object grep_file_response) end)

  abbrev pub grep_files_response : Fields
  grep_files_response =
      response (field (vector sizes.grep_files_result_size (object grep_files_result)) end)

-- `FileType::type`, with the numbers of `FILE_TYPE_VALUES` as patterns of 32 bits
pub data FileType : Type 0 where
  none_there not_found file directory symbol_link block character fifo socket unknown : FileType

unfoldable pub file_type_value : FileType → ℕ
file_type_value none_there = 0
file_type_value not_found = 2 ^ 32 - 1
file_type_value file = 1
file_type_value directory = 2
file_type_value symbol_link = 3
file_type_value block = 4
file_type_value character = 5
file_type_value fifo = 6
file_type_value socket = 7
file_type_value unknown = 8
