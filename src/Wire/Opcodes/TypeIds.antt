-- ===== src/Wire/Opcodes/TypeIds.antt =====
-- Type ids of python/vedadb/wire/vbp/opcodes.py and their names.
use vedadb_driver.Base.{ℕ, String, List, [], ◌∷◌}
use vedadb_driver.Base.Dict.{Dict}

abbrev pub t_bool : ℕ
t_bool = 16

abbrev pub t_int2 : ℕ
t_int2 = 21

abbrev pub t_int4 : ℕ
t_int4 = 23

abbrev pub t_int8 : ℕ
t_int8 = 20

abbrev pub t_float4 : ℕ
t_float4 = 700

abbrev pub t_float8 : ℕ
t_float8 = 701

abbrev pub t_text : ℕ
t_text = 25

abbrev pub t_varchar : ℕ
t_varchar = 1043

abbrev pub t_bytea : ℕ
t_bytea = 17

abbrev pub t_uuid : ℕ
t_uuid = 2950

abbrev pub t_date : ℕ
t_date = 1082

abbrev pub t_time : ℕ
t_time = 1083

abbrev pub t_timestamp : ℕ
t_timestamp = 1114

abbrev pub t_timestamptz : ℕ
t_timestamptz = 1184

abbrev pub t_interval : ℕ
t_interval = 1186

abbrev pub t_numeric : ℕ
t_numeric = 1700

abbrev pub t_money : ℕ
t_money = 790

abbrev pub t_json : ℕ
t_json = 114

abbrev pub t_jsonb : ℕ
t_jsonb = 3802

abbrev pub t_array : ℕ
t_array = 2277

abbrev pub t_inet : ℕ
t_inet = 869

abbrev pub t_macaddr : ℕ
t_macaddr = 829

abbrev pub t_cidr : ℕ
t_cidr = 650

abbrev pub t_vector : ℕ
t_vector = 5000

abbrev pub t_tsvector : ℕ
t_tsvector = 3614

abbrev pub t_document : ℕ
t_document = 5100

abbrev pub t_graph_node : ℕ
t_graph_node = 5300

abbrev pub t_graph_edge : ℕ
t_graph_edge = 5301

abbrev pub t_ts_point : ℕ
t_ts_point = 5400

abbrev pub t_ts_series : ℕ
t_ts_series = 5401

abbrev pub t_geo_point : ℕ
t_geo_point = 5500

abbrev pub t_geo_path : ℕ
t_geo_path = 5501

abbrev pub t_geo_polygon : ℕ
t_geo_polygon = 5502

abbrev pub t_geo_multipoint : ℕ
t_geo_multipoint = 5503

abbrev pub t_geo_multipolygon : ℕ
t_geo_multipolygon = 5504

-- `_build_type_registry`
abbrev pub type_ids : List ℕ
type_ids =
    t_bool ∷ t_int2 ∷ t_int4 ∷ t_int8 ∷ t_float4 ∷ t_float8 ∷ t_text ∷ t_varchar ∷ t_bytea ∷ t_uuid
    ∷ t_date ∷ t_time ∷ t_timestamp ∷ t_timestamptz ∷ t_interval ∷ t_numeric ∷ t_json ∷ t_jsonb
    ∷ t_array ∷ t_inet ∷ t_macaddr ∷ t_cidr ∷ t_vector ∷ t_tsvector ∷ t_document ∷ t_ts_point
    ∷ t_geo_point ∷ []

abbrev pub type_id_names : Dict ℕ String
type_id_names =
    (t_bool, "T_BOOL")
    ∷ (t_int2, "T_INT2")
    ∷ (t_int4, "T_INT4")
    ∷ (t_int8, "T_INT8")
    ∷ (t_float4, "T_FLOAT4")
    ∷ (t_float8, "T_FLOAT8")
    ∷ (t_text, "T_TEXT")
    ∷ (t_varchar, "T_VARCHAR")
    ∷ (t_bytea, "T_BYTEA")
    ∷ (t_uuid, "T_UUID")
    ∷ (t_date, "T_DATE")
    ∷ (t_time, "T_TIME")
    ∷ (t_timestamp, "T_TIMESTAMP")
    ∷ (t_timestamptz, "T_TIMESTAMPTZ")
    ∷ (t_interval, "T_INTERVAL")
    ∷ (t_numeric, "T_NUMERIC")
    ∷ (t_money, "T_MONEY")
    ∷ (t_json, "T_JSON")
    ∷ (t_jsonb, "T_JSONB")
    ∷ (t_array, "T_ARRAY")
    ∷ (t_inet, "T_INET")
    ∷ (t_macaddr, "T_MACADDR")
    ∷ (t_cidr, "T_CIDR")
    ∷ (t_vector, "T_VECTOR")
    ∷ (t_tsvector, "T_TSVECTOR")
    ∷ (t_document, "T_DOCUMENT")
    ∷ (t_graph_node, "T_GRAPH_NODE")
    ∷ (t_graph_edge, "T_GRAPH_EDGE")
    ∷ (t_ts_point, "T_TS_POINT")
    ∷ (t_ts_series, "T_TS_SERIES")
    ∷ (t_geo_point, "T_GEO_POINT")
    ∷ (t_geo_path, "T_GEO_PATH")
    ∷ (t_geo_polygon, "T_GEO_POLYGON")
    ∷ (t_geo_multipoint, "T_GEO_MULTIPOINT")
    ∷ (t_geo_multipolygon, "T_GEO_MULTIPOLYGON")
    ∷ []
