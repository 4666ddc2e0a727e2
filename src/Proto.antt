-- ===== src/Proto.antt =====
-- crates/fileloft-core/src/proto.rs: the protocol's constants.
use fileloft.Base.{Bool, false, List, [], ◌∷◌, Text, codes}

abbrev pub tus_version : Text
tus_version = codes "1.0.0"

abbrev pub hdr_tus_resumable : Text
hdr_tus_resumable = codes "Tus-Resumable"

abbrev pub hdr_tus_version : Text
hdr_tus_version = codes "Tus-Version"

abbrev pub hdr_tus_extension : Text
hdr_tus_extension = codes "Tus-Extension"

abbrev pub hdr_tus_max_size : Text
hdr_tus_max_size = codes "Tus-Max-Size"

abbrev pub hdr_tus_checksum_algorithm : Text
hdr_tus_checksum_algorithm = codes "Tus-Checksum-Algorithm"

abbrev pub hdr_upload_offset : Text
hdr_upload_offset = codes "Upload-Offset"

abbrev pub hdr_upload_length : Text
hdr_upload_length = codes "Upload-Length"

abbrev pub hdr_upload_defer_length : Text
hdr_upload_defer_length = codes "Upload-Defer-Length"

abbrev pub hdr_upload_metadata : Text
hdr_upload_metadata = codes "Upload-Metadata"

abbrev pub hdr_upload_expires : Text
hdr_upload_expires = codes "Upload-Expires"

abbrev pub hdr_upload_checksum : Text
hdr_upload_checksum = codes "Upload-Checksum"

abbrev pub hdr_upload_concat : Text
hdr_upload_concat = codes "Upload-Concat"

abbrev pub hdr_location : Text
hdr_location = codes "Location"

abbrev pub hdr_cache_control : Text
hdr_cache_control = codes "Cache-Control"

abbrev pub hdr_content_type : Text
hdr_content_type = codes "Content-Type"

abbrev pub hdr_content_length : Text
hdr_content_length = codes "Content-Length"

abbrev pub hdr_access_control_allow_origin : Text
hdr_access_control_allow_origin = codes "Access-Control-Allow-Origin"

abbrev pub hdr_access_control_allow_methods : Text
hdr_access_control_allow_methods = codes "Access-Control-Allow-Methods"

abbrev pub hdr_access_control_allow_headers : Text
hdr_access_control_allow_headers = codes "Access-Control-Allow-Headers"

abbrev pub hdr_access_control_expose_headers : Text
hdr_access_control_expose_headers = codes "Access-Control-Expose-Headers"

abbrev pub hdr_access_control_max_age : Text
hdr_access_control_max_age = codes "Access-Control-Max-Age"

abbrev pub hdr_access_control_allow_credentials : Text
hdr_access_control_allow_credentials = codes "Access-Control-Allow-Credentials"

abbrev pub content_type_octet_stream : Text
content_type_octet_stream = codes "application/offset+octet-stream"

abbrev pub ext_creation : Text
ext_creation = codes "creation"

abbrev pub ext_creation_with_upload : Text
ext_creation_with_upload = codes "creation-with-upload"

abbrev pub ext_creation_defer_length : Text
ext_creation_defer_length = codes "creation-defer-length"

abbrev pub ext_expiration : Text
ext_expiration = codes "expiration"

abbrev pub ext_checksum : Text
ext_checksum = codes "checksum"

abbrev pub ext_checksum_trailer : Text
ext_checksum_trailer = codes "checksum-trailer"

abbrev pub ext_termination : Text
ext_termination = codes "termination"

abbrev pub ext_concatenation : Text
ext_concatenation = codes "concatenation"

abbrev pub supported_checksum_algorithms : List Text
supported_checksum_algorithms = codes "sha1" ∷ codes "sha256" ∷ codes "md5" ∷ []

abbrev pub checksum_trailer_implemented : Bool
checksum_trailer_implemented = false
