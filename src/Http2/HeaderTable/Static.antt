-- ===== src/Http2/HeaderTable/Static.antt =====
-- The class initialiser of bayserver_docker_http/h2/header_table.py: the arguments of the calls
-- of `static_table.put`, in their order.
use bay_server_python.Prelude.{ℕ, List, [], ◌∷◌, Bytes, codes}

abbrev pub entries : List (ℕ × Bytes × Bytes)
entries =
    (1, codes ":authority", codes "")
    ∷ (2, codes ":method", codes "GET")
    ∷ (3, codes ":method", codes "POST")
    ∷ (4, codes ":path", codes "/")
    ∷ (5, codes ":path", codes "/index.html")
    ∷ (6, codes ":scheme", codes "http")
    ∷ (7, codes ":scheme", codes "https")
    ∷ (8, codes ":status", codes "200")
    ∷ (9, codes ":status", codes "204")
    ∷ (10, codes ":status", codes "206")
    ∷ (11, codes ":status", codes "304")
    ∷ (12, codes ":status", codes "400")
    ∷ (13, codes ":status", codes "404")
    ∷ (14, codes ":status", codes "500")
    ∷ (15, codes "accept-charset", codes "")
    ∷ (16, codes "accept-encoding", codes "gzip, deflate")
    ∷ (17, codes "accept-language", codes "")
    ∷ (18, codes "accept-ranges", codes "")
    ∷ (19, codes "accept", codes "")
    ∷ (20, codes "access-control-allow-origin", codes "")
    ∷ (21, codes "age", codes "")
    ∷ (22, codes "allow", codes "")
    ∷ (23, codes "authorization", codes "")
    ∷ (24, codes "cache-control", codes "")
    ∷ (25, codes "content-disposition", codes "")
    ∷ (26, codes "content-encoding", codes "")
    ∷ (27, codes "content-language", codes "")
    ∷ (28, codes "content-length", codes "")
    ∷ (29, codes "content-location", codes "")
    ∷ (30, codes "content-range", codes "")
    ∷ (31, codes "content-type", codes "")
    ∷ (32, codes "cookie", codes "")
    ∷ (33, codes "date", codes "")
    ∷ (34, codes "etag", codes "")
    ∷ (35, codes "expect", codes "")
    ∷ (36, codes "expires", codes "")
    ∷ (37, codes "from", codes "")
    ∷ (38, codes "host", codes "")
    ∷ (39, codes "if-match", codes "")
    ∷ (40, codes "if-modified-since", codes "")
    ∷ (41, codes "if-none-match", codes "")
    ∷ (42, codes "if-range", codes "")
    ∷ (43, codes "if-unmodified-since", codes "")
    ∷ (44, codes "last-modified", codes "")
    ∷ (45, codes "link", codes "")
    ∷ (46, codes "location", codes "")
    ∷ (47, codes "max-forwards", codes "")
    ∷ (48, codes "proxy-authenticate", codes "")
    ∷ (49, codes "proxy-authorization", codes "")
    ∷ (50, codes "range", codes "")
    ∷ (51, codes "referer", codes "")
    ∷ (52, codes "refresh", codes "")
    ∷ (53, codes "retry-after", codes "")
    ∷ (54, codes "server", codes "")
    ∷ (55, codes "set-cookie", codes "")
    ∷ (56, codes "strict-transport-security", codes "")
    ∷ (57, codes "transfer-encoding", codes "")
    ∷ (58, codes "user-agent", codes "")
    ∷ (59, codes "vary", codes "")
    ∷ (60, codes "via", codes "")
    ∷ (61, codes "www-authenticate", codes "")
    ∷ []
