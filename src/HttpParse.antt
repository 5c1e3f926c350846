-- ===== src/HttpParse.antt =====
-- learn/parse_http.go: the witness of one HTTP message. Texts are bytes. The data of a witness are
-- those of the IR (pb.Data), with the library's primitive values as a parameter.
pub mod Elements
pub mod Headers
pub mod Bodies
pub mod Messages
